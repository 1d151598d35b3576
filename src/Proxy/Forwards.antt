-- ===== src/Proxy/Forwards.antt =====
-- client/src/proxy/dxgi_proxy.cpp: what the exported functions call, over any run of calls.
use crimson_desert_online_mo.Common.{
  ℕ, true, ◌≡◌, ◌≢◌, refl, ◌⊎◌, inl, inr, ◌||◌, Option, none, some, List, [], ◌∷◌, ◌==◌, String,
  if◌then◌else◌, arith, All, Bool-cases,
}
use crimson_desert_online_mo.Proxy.{
  Windows, DxgiProxy, new_proxy, do_init, init_dxgi_proxy, shutdown_dxgi_proxy,
  proxy_create_dxgi_factory, proxy_create_dxgi_factory1, proxy_create_dxgi_factory2,
  proxy_dxgi_get_debug_interface1, proxy_dxgi_d3d10_create_device,
  proxy_dxgi_declare_adapter_removal_support,
}

pub data Export : Type 0 where
  create_dxgi_factory create_dxgi_factory1 create_dxgi_factory2 : Export
  dxgi_get_debug_interface1 dxgi_d3d10_create_device : Export
  dxgi_declare_adapter_removal_support : Export

-- The names of the functions as dxgi.dll exports them.
abbrev pub genuine_name : Export → String
genuine_name create_dxgi_factory = "CreateDXGIFactory"
genuine_name create_dxgi_factory1 = "CreateDXGIFactory1"
genuine_name create_dxgi_factory2 = "CreateDXGIFactory2"
genuine_name dxgi_get_debug_interface1 = "DXGIGetDebugInterface1"
genuine_name dxgi_d3d10_create_device = "DXGID3D10CreateDevice"
genuine_name dxgi_declare_adapter_removal_support = "DXGIDeclareAdapterRemovalSupport"

-- A call from outside: an exported function, `InitDxgiProxy` or `ShutdownDxgiProxy`.
pub data ProxyEvent : Type 0 where
  calls : Export → ProxyEvent
  inits shuts_down : ProxyEvent

module _ (w : Windows) where
  abbrev pub forward : Export → DxgiProxy → DxgiProxy × Option ℕ
  forward create_dxgi_factory p = proxy_create_dxgi_factory w p
  forward create_dxgi_factory1 p = proxy_create_dxgi_factory1 w p
  forward create_dxgi_factory2 p = proxy_create_dxgi_factory2 w p
  forward dxgi_get_debug_interface1 p = proxy_dxgi_get_debug_interface1 w p
  forward dxgi_d3d10_create_device p = proxy_dxgi_d3d10_create_device w p
  forward dxgi_declare_adapter_removal_support p = proxy_dxgi_declare_adapter_removal_support w p

  -- Each forwarded call: the references that Windows counts at its time, the export, and what is
  -- called.
  pub record Forwarded : Type 0 where
    pub references : ℕ
    pub export : Export
    pub called : Option ℕ

  pub run : List ProxyEvent → DxgiProxy → List Forwarded
  run [] p = []
  run (calls e ∷ es) p =
      let (p', called) = forward e p in
      record { references = p'.references; export = e; called = called } ∷ run es p'
  run (inits ∷ es) p = run es (init_dxgi_proxy w p)
  run (shuts_down ∷ es) p = run es (shutdown_dxgi_proxy p)

  abbrev pub genuine : Export → ℕ
  genuine e = w.get_proc_address w.load_dxgi (genuine_name e)

  -- The call fails exactly if the library is not loaded or has no such function; else it goes to the
  -- genuine function of the export.
  abbrev pub Genuine : Forwarded → Type 0
  Genuine f =
      f.called
      ≡ (if (f.references == 0) || (genuine f.export == 0) then none else some (genuine f.export))

  -- The handle is kept exactly while the library is loaded, and then the pointers are those of its
  -- functions.
  abbrev Kept : DxgiProxy → Type 0
  Kept p =
      ((p.real_dxgi ≡ 0) × (p.references ≡ 0))
      ⊎ ((p.initialized ≡ true)
          × (p.real_dxgi ≢ 0)
          × (p.references ≡ 1)
          × (p.p_create_dxgi_factory ≡ genuine create_dxgi_factory)
          × (p.p_create_dxgi_factory1 ≡ genuine create_dxgi_factory1)
          × (p.p_create_dxgi_factory2 ≡ genuine create_dxgi_factory2)
          × (p.p_dxgi_get_debug_interface1 ≡ genuine dxgi_get_debug_interface1)
          × (p.p_dxgi_d3d10_create_device ≡ genuine dxgi_d3d10_create_device)
          × (p.p_dxgi_declare_adapter_removal_support
              ≡ genuine dxgi_declare_adapter_removal_support))

  init_dxgi_proxy-Kept : (p : DxgiProxy) → Kept p → Kept (init_dxgi_proxy w p)
  unfolding init_dxgi_proxy do_init
  init_dxgi_proxy-Kept p (inr k) = rw k.0 (inr (refl, k.1, k.2, k.3, k.4, k.5, k.6, k.7, k.8))
  init_dxgi_proxy-Kept p (inl (gone, free)) = elim (Bool-cases p.initialized) [
    | inl done ↦ rw done (inl (gone, free))
    | inr first ↦ rw first (elim (Bool-cases (w.load_dxgi == 0)) [
      | inl failed ↦ rw failed (inl (refl, free))
      | inr loaded ↦
          let there : w.load_dxgi ≢ 0 = ground (arith, loaded) in
          rw (loaded, free) (inr (refl, there, refl, refl, refl, refl, refl, refl, refl))
    ])
  ]

  shutdown_dxgi_proxy-Kept : (p : DxgiProxy) → Kept p → Kept (shutdown_dxgi_proxy p)
  unfolding shutdown_dxgi_proxy
  shutdown_dxgi_proxy-Kept p k = inl (ground arith)

  -- What the body of a forwarder answers with its pointer.
  answer-Genuine :
      (e : Export) (p : DxgiProxy) (pointer : ℕ)
      → ((p.real_dxgi ≡ 0) × (p.references ≡ 0))
        ⊎ ((p.real_dxgi ≢ 0) × (p.references ≡ 1) × (pointer ≡ genuine e))
      → Genuine (record {
        references = p.references;
        export = e;
        called = if (p.real_dxgi == 0) || (pointer == 0) then none else some pointer;
      })
  answer-Genuine e p pointer (inl (missing, free)) = rw (missing, free) refl
  answer-Genuine e p pointer (inr (kept, one, same)) = ground (arith, same)

  forward-Genuine :
      (e : Export) (p : DxgiProxy)
      → Kept p
      → Genuine
          (record { references = (forward e p).0.references; export = e; called = (forward e p).1 })
  unfolding proxy_create_dxgi_factory proxy_create_dxgi_factory1 proxy_create_dxgi_factory2
      proxy_dxgi_get_debug_interface1 proxy_dxgi_d3d10_create_device
      proxy_dxgi_declare_adapter_removal_support
  forward-Genuine create_dxgi_factory p k =
      answer-Genuine create_dxgi_factory (init_dxgi_proxy w p) _ (elim (init_dxgi_proxy-Kept p k) [
        | inl missing ↦ inl missing
        | inr kept ↦ inr (kept.1, kept.2, kept.3)
      ])
  forward-Genuine create_dxgi_factory1 p k =
      answer-Genuine create_dxgi_factory1 (init_dxgi_proxy w p) _ (elim (init_dxgi_proxy-Kept p k) [
        | inl missing ↦ inl missing
        | inr kept ↦ inr (kept.1, kept.2, kept.4)
      ])
  forward-Genuine create_dxgi_factory2 p k =
      answer-Genuine create_dxgi_factory2 (init_dxgi_proxy w p) _ (elim (init_dxgi_proxy-Kept p k) [
        | inl missing ↦ inl missing
        | inr kept ↦ inr (kept.1, kept.2, kept.5)
      ])
  forward-Genuine dxgi_get_debug_interface1 p k =
      answer-Genuine dxgi_get_debug_interface1 (init_dxgi_proxy w p) _
        (elim (init_dxgi_proxy-Kept p k) [
          | inl missing ↦ inl missing
          | inr kept ↦ inr (kept.1, kept.2, kept.6)
        ])
  forward-Genuine dxgi_d3d10_create_device p k =
      answer-Genuine dxgi_d3d10_create_device (init_dxgi_proxy w p) _
        (elim (init_dxgi_proxy-Kept p k) [
          | inl missing ↦ inl missing
          | inr kept ↦ inr (kept.1, kept.2, kept.7)
        ])
  forward-Genuine dxgi_declare_adapter_removal_support p k =
      answer-Genuine dxgi_declare_adapter_removal_support (init_dxgi_proxy w p) _
        (elim (init_dxgi_proxy-Kept p k) [
          | inl missing ↦ inl missing
          | inr kept ↦ inr (kept.1, kept.2, kept.8)
        ])

  forward-state : (e : Export) (p : DxgiProxy) → (forward e p).0 ≡ init_dxgi_proxy w p
  unfolding proxy_create_dxgi_factory proxy_create_dxgi_factory1 proxy_create_dxgi_factory2
      proxy_dxgi_get_debug_interface1 proxy_dxgi_d3d10_create_device
      proxy_dxgi_declare_adapter_removal_support
  forward-state create_dxgi_factory p = refl
  forward-state create_dxgi_factory1 p = refl
  forward-state create_dxgi_factory2 p = refl
  forward-state dxgi_get_debug_interface1 p = refl
  forward-state dxgi_d3d10_create_device p = refl
  forward-state dxgi_declare_adapter_removal_support p = refl

  forward-Kept : (e : Export) (p : DxgiProxy) → Kept p → Kept (forward e p).0
  forward-Kept e p k = rw (forward-state e p) (init_dxgi_proxy-Kept p k)

  run-Kept : (es : List ProxyEvent) (p : DxgiProxy) → Kept p → All Genuine (run es p)
  unfolding run
  run-Kept [] p k = tt
  run-Kept (calls e ∷ es) p k =
      (forward-Genuine e p k, run-Kept es (forward e p).0 (forward-Kept e p k))
  run-Kept (inits ∷ es) p k = run-Kept es (init_dxgi_proxy w p) (init_dxgi_proxy-Kept p k)
  run-Kept (shuts_down ∷ es) p k =
      run-Kept es (shutdown_dxgi_proxy p) (shutdown_dxgi_proxy-Kept p k)

  -- Over any run of calls from the start: where the genuine library is loaded at the time of a call
  -- and has the function, each exported function calls the address that GetProcAddress gives for its
  -- own name in that library, and fails otherwise; loaded means that LoadLibraryW has succeeded and
  -- FreeLibrary has not been called since.
  pub run-Genuine : (es : List ProxyEvent) → All Genuine (run es new_proxy)
  run-Genuine es = run-Kept es new_proxy (inl (refl, refl))
