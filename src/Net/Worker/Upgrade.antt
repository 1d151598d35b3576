-- ===== src/Net/Worker/Upgrade.antt =====
-- What the reading of the handshake's response accepts, and what it drops.
use crimson_desert_online_mo.Common.{
  ℕ, ◌≤◌, ◌≡◌, refl, sym, ap, ◌∙◌, inl, inr, true, Option, none, some, List, [], ◌∷◌, ◌++◌,
  append_assoc, length, ltb, arith, Bool-cases, concat,
}
use crimson_desert_online_mo.Net.Worker.{
  Read, starts_with, contains, crlfcrlf, switching, read_response, accept, handshake, chunks,
}

starts_with-append : (p s t : List ℕ) → starts_with p s ≡ true → starts_with p (s ++ t) ≡ true
starts_with-append [] s t h = refl
starts_with-append (p ∷ ps) [] t h = cc
starts_with-append (p ∷ ps) (c ∷ cs) t h = ground (arith, starts_with-append ps cs t)

starts_with_front : (p s t : List ℕ) → starts_with p [] ≡ true → starts_with p s ≡ true
starts_with_front [] s t h = refl
starts_with_front (p ∷ ps) s t h = cc

contains-append : (p s t : List ℕ) → contains p s ≡ true → contains p (s ++ t) ≡ true
contains-append p [] [] h = h
contains-append p [] (c ∷ t) h = rw (starts_with_front p (c ∷ t) [] h)
contains-append p (c ∷ s) t h =
    ground (arith, starts_with-append p (c ∷ s) t, contains-append p s t)

read_response_done :
    (resp : List ℕ) (reads : List Read)
    → contains crlfcrlf resp ≡ true
    → read_response resp reads ≡ some (resp, reads)
unfolding read_response
read_response_done resp [] h = rw h
read_response_done resp (none ∷ reads) h = rw h
read_response_done resp (some [] ∷ reads) h = rw h
read_response_done resp (some (c ∷ cs) ∷ reads) h = rw h

-- Where one read of at most 8192 bytes begins with headers that are complete and hold "101", the
-- bytes behind them in that read are lost: the reads that are left for the session are the same
-- whatever they are.
pub handshake_drops :
    (c : ℕ) (head tail : List ℕ) (reads : List Read)
    → contains crlfcrlf (c ∷ head) ≡ true
    → contains switching (c ∷ head) ≡ true
    → length (c ∷ head ++ tail) ≤ 8192
    → handshake true (some (c ∷ head ++ tail) ∷ reads) ≡ some reads
unfolding handshake read_response accept
handshake_drops c head tail reads ends says fits =
    let ends' = contains-append crlfcrlf (c ∷ head) tail ends in
    let says' = contains-append switching (c ∷ head) tail says in
    ground (arith, ends', says', read_response_done (c ∷ head ++ tail) reads ends')

abbrev Ends : List ℕ → List Read → Option (List ℕ × List Read) → Type 0
Ends resp reads none = Unit {0}
Ends resp reads (some (r, left)) =
    (contains crlfcrlf r ≡ true)
    × (length resp ≤ 8192 → length r ≤ 8192)
    × (resp ++ concat (chunks reads) ≡ r ++ concat (chunks left))

ended : (resp : List ℕ) (reads : List Read) → Ends resp reads (read_response resp reads)
unfolding read_response
ended resp [] = elim (Bool-cases (contains crlfcrlf resp)) [
  | inl e ↦ rw e (e, (λ h. h), refl)
  | inr e ↦ rw e tt
]
ended resp (none ∷ reads) = elim (Bool-cases (contains crlfcrlf resp)) [
  | inl e ↦ rw e (e, (λ h. h), refl)
  | inr e ↦ rw e tt
]
ended resp (some [] ∷ reads) = elim (Bool-cases (contains crlfcrlf resp)) [
  | inl e ↦ rw e (e, (λ h. h), refl)
  | inr e ↦ rw e tt
]
ended resp (some (c ∷ cs) ∷ reads) = elim (Bool-cases (contains crlfcrlf resp)) [
  | inl e ↦ rw e (e, (λ h. h), refl)
  | inr e ↦ rw e (elim (Bool-cases (ltb 8192 (length (resp ++ c ∷ cs)))) [
    | inl long ↦ rw long tt
    | inr short ↦
        rw short (longer resp (c ∷ cs) reads _ (ground arith) (ended (resp ++ c ∷ cs) reads))
  ])
]
  where
    longer :
        (resp cs : List ℕ) (reads : List Read) (o : Option (List ℕ × List Read))
        → length (resp ++ cs) ≤ 8192
        → Ends (resp ++ cs) reads o
        → (elim o as (λ o. Type 0) [
          | none ↦ Unit {0}
          | some (r, left) ↦
              (contains crlfcrlf r ≡ true)
              × (length resp ≤ 8192 → length r ≤ 8192)
              × (resp ++ (cs ++ concat (chunks reads)) ≡ r ++ concat (chunks left))
        ])
    longer resp cs reads none short h = tt
    longer resp cs reads (some (r, left)) short h =
        (h.0, (λ _. h.1 short), sym (append_assoc resp cs (concat (chunks reads))) ∙ h.2)

accept-Ends :
    (reads left : List Read) (o : Option (List ℕ × List Read))
    → Ends [] reads o
    → accept o ≡ some left
    → (resp : List ℕ) × (contains crlfcrlf resp ≡ true)
      × (contains switching resp ≡ true)
      × (length resp ≤ 8192)
      × (concat (chunks reads) ≡ resp ++ concat (chunks left))
unfolding accept
accept-Ends reads left none h e = cc
accept-Ends reads left (some (r, left')) h e = elim (Bool-cases (contains switching r)) [
  | inl says ↦
      let same : left' ≡ left = ground arith in
      (r, h.0, says, h.1 (omega arith), h.2 ∙ ap (λ l. r ++ concat (chunks l)) same)
  | inr no_text ↦ ground arith
]

-- An accepted response holds the end of the headers and the text "101" somewhere, in at most 8192
-- bytes; it is the front of the stream, and the session reads on behind it.
pub handshake_accepts :
    (reads left : List Read)
    → handshake true reads ≡ some left
    → (resp : List ℕ) × (contains crlfcrlf resp ≡ true)
      × (contains switching resp ≡ true)
      × (length resp ≤ 8192)
      × (concat (chunks reads) ≡ resp ++ concat (chunks left))
unfolding handshake
handshake_accepts reads left e = accept-Ends reads left (read_response [] reads) (ended [] reads) e
