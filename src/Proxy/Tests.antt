-- ===== src/Proxy/Tests.antt =====
-- A Windows whose dxgi.dll has one function.
use crimson_desert_online_mo.Common.{[], ◌∷◌, str_eq, if◌then◌else◌, All}
use crimson_desert_online_mo.Proxy.{Windows, new_proxy}
use crimson_desert_online_mo.Proxy.Forwards.{
  create_dxgi_factory1, Genuine, calls, shuts_down, run, run-Genuine,
}

abbrev windows : Windows
windows = record {
  load_dxgi = 0x5000;
  get_proc_address = λ library name. if str_eq name "CreateDXGIFactory1" then 0x5010 else 0;
}

run-Genuine_example : All (Genuine windows) (
    run windows
      (calls create_dxgi_factory1 ∷ shuts_down ∷ calls create_dxgi_factory1 ∷ [])
      new_proxy)
run-Genuine_example =
    run-Genuine windows (calls create_dxgi_factory1 ∷ shuts_down ∷ calls create_dxgi_factory1 ∷ [])
