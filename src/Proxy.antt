-- ===== src/Proxy.antt =====
-- client/src/proxy/dxgi_proxy.cpp: the exported functions that are forwarded to the genuine dxgi.dll.
-- Windows is a parameter; a handle or a pointer of 0 is null.
pub mod Forwards
mod Tests
use crimson_desert_online_mo.Common.{
  ℕ, suc, ◌-◌, Bool, true, false, not, ◌||◌, Option, none, some, List, [], ◌∷◌, String, ◌==◌,
  if◌then◌else◌,
}

pub record Windows : Type 0 where
  -- `LoadLibraryW` of the genuine dxgi.dll, and `GetProcAddress`.
  pub load_dxgi : ℕ
  pub get_proc_address : ℕ → String → ℕ

-- `initialized` is the once flag, `real_dxgi` is `g_realDxgi`, and `references` what Windows counts:
-- `LoadLibraryW` adds one and `FreeLibrary` takes one away. The six pointers follow.
pub record DxgiProxy : Type 0 where
  pub initialized : Bool
  pub real_dxgi : ℕ
  pub references : ℕ
  pub p_create_dxgi_factory : ℕ
  pub p_create_dxgi_factory1 : ℕ
  pub p_create_dxgi_factory2 : ℕ
  pub p_dxgi_get_debug_interface1 : ℕ
  pub p_dxgi_d3d10_create_device : ℕ
  pub p_dxgi_declare_adapter_removal_support : ℕ

abbrev pub new_proxy : DxgiProxy
new_proxy = record {
  initialized = false;
  real_dxgi = 0;
  references = 0;
  p_create_dxgi_factory = 0;
  p_create_dxgi_factory1 = 0;
  p_create_dxgi_factory2 = 0;
  p_dxgi_get_debug_interface1 = 0;
  p_dxgi_d3d10_create_device = 0;
  p_dxgi_declare_adapter_removal_support = 0;
}

module _ (w : Windows) where
  pub do_init : DxgiProxy → DxgiProxy
  do_init p = if w.load_dxgi == 0 then record p { real_dxgi = 0 } else record p {
    real_dxgi = w.load_dxgi;
    references = suc p.references;
    p_create_dxgi_factory = w.get_proc_address w.load_dxgi "CreateDXGIFactory";
    p_create_dxgi_factory1 = w.get_proc_address w.load_dxgi "CreateDXGIFactory1";
    p_create_dxgi_factory2 = w.get_proc_address w.load_dxgi "CreateDXGIFactory2";
    p_dxgi_get_debug_interface1 = w.get_proc_address w.load_dxgi "DXGIGetDebugInterface1";
    p_dxgi_d3d10_create_device = w.get_proc_address w.load_dxgi "DXGID3D10CreateDevice";
    p_dxgi_declare_adapter_removal_support =
        w.get_proc_address w.load_dxgi "DXGIDeclareAdapterRemovalSupport";
  }

  -- `InitDxgiProxy`: the state; its answer is whether the library is loaded.
  pub init_dxgi_proxy : DxgiProxy → DxgiProxy
  unfolding do_init
  init_dxgi_proxy p = if p.initialized then p else record (do_init p) { initialized = true }

  -- The exported functions: the function that each calls, `none` for `E_FAIL`.
  pub proxy_create_dxgi_factory : DxgiProxy → DxgiProxy × Option ℕ
  unfolding init_dxgi_proxy
  proxy_create_dxgi_factory p =
      let p = init_dxgi_proxy p in
      let pointer = p.p_create_dxgi_factory in
      (p, if (p.real_dxgi == 0) || (pointer == 0) then none else some pointer)

  pub proxy_create_dxgi_factory1 : DxgiProxy → DxgiProxy × Option ℕ
  unfolding init_dxgi_proxy
  proxy_create_dxgi_factory1 p =
      let p = init_dxgi_proxy p in
      let pointer = p.p_create_dxgi_factory1 in
      (p, if (p.real_dxgi == 0) || (pointer == 0) then none else some pointer)

  pub proxy_create_dxgi_factory2 : DxgiProxy → DxgiProxy × Option ℕ
  unfolding init_dxgi_proxy
  proxy_create_dxgi_factory2 p =
      let p = init_dxgi_proxy p in
      let pointer = p.p_create_dxgi_factory2 in
      (p, if (p.real_dxgi == 0) || (pointer == 0) then none else some pointer)

  pub proxy_dxgi_get_debug_interface1 : DxgiProxy → DxgiProxy × Option ℕ
  unfolding init_dxgi_proxy
  proxy_dxgi_get_debug_interface1 p =
      let p = init_dxgi_proxy p in
      let pointer = p.p_dxgi_get_debug_interface1 in
      (p, if (p.real_dxgi == 0) || (pointer == 0) then none else some pointer)

  pub proxy_dxgi_d3d10_create_device : DxgiProxy → DxgiProxy × Option ℕ
  unfolding init_dxgi_proxy
  proxy_dxgi_d3d10_create_device p =
      let p = init_dxgi_proxy p in
      let pointer = p.p_dxgi_d3d10_create_device in
      (p, if (p.real_dxgi == 0) || (pointer == 0) then none else some pointer)

  pub proxy_dxgi_declare_adapter_removal_support : DxgiProxy → DxgiProxy × Option ℕ
  unfolding init_dxgi_proxy
  proxy_dxgi_declare_adapter_removal_support p =
      let p = init_dxgi_proxy p in
      let pointer = p.p_dxgi_declare_adapter_removal_support in
      (p, if (p.real_dxgi == 0) || (pointer == 0) then none else some pointer)

-- The library is freed where it is loaded.
pub shutdown_dxgi_proxy : DxgiProxy → DxgiProxy
shutdown_dxgi_proxy p =
    if not (p.real_dxgi == 0) then record p { real_dxgi = 0; references = p.references - 1 } else p
