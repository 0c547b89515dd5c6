-- ===== src/Socks5/Proxy/Examples.antt =====
-- A proxied connection whose download fails while its upload holds an outcome.
use booster.Common.{refl, none, [], ◌≤◌, ◌⊎◌, true, length}
use booster.Link.Bandwidth.{NetworkIo}
use booster.Socks5.Proxy.{
  Proxying, copying, holding, Step, done, more, downloads, download_copied, IsHolding,
  proxy_data_leaks,
}

abbrev fresh : NetworkIo
fresh = record { n = 0; bandwidth = 0; t = 0 }

abbrev returned_proxy : Proxying
returned_proxy = record {
  download_io = fresh;
  upload_io = fresh;
  download = copying;
  upload = holding none;
  channel = [];
  returned = true;
}

proxy_data_leaks_example :
    (1 ≤ 6)
    × (((r : Proxying) × Step (download_copied (0, none) returned_proxy) r)
        ⊎ (IsHolding (download_copied (0, none) returned_proxy).download
            × IsHolding (download_copied (0, none) returned_proxy).upload
            × (2 ≤ length (download_copied (0, none) returned_proxy).channel)))
proxy_data_leaks_example =
    proxy_data_leaks 1 returned_proxy (download_copied (0, none) returned_proxy) refl
      (more (downloads (0, none) refl) done)
