-- ===== src/Netif/Routes/Crash.antt =====
-- A client that dies without its Teardown.
use krot_vpn.Prelude.{◌≡◌, ◌≢◌, refl, sym, ◌∙◌, true, some, arith}
use krot_vpn.Netif.{Text, System}
use krot_vpn.Netif.Laws.{IsFiles}
use krot_vpn.Netif.Routes.{
  RouteState, resolv, resolv_bak, managed, set_dns, restore_dns, drop_routes, teardown,
}
use krot_vpn.Netif.Routes.Reverted.{resolv-ne, read-restore_dns, read-drop_routes}

module _ (S : System) (files : IsFiles S)
    (writable : (t : S.State) (p d : Text) → (S.write_file t p d).1 ≡ true) where
  -- The file that setDNS leaves, its backup, and the state that it returns.
  set_dns-files :
      (s : S.State) (rs : RouteState) (dns cur : Text)
      → S.read_file s resolv ≡ some cur
      → let (s1, rs1, done) = set_dns S s rs dns in
        (S.read_file s1 resolv ≡ some (managed dns))
        × (S.read_file s1 resolv_bak ≡ some cur)
        × (rs1.dns_bak ≡ resolv_bak)
  unfolding set_dns
  set_dns-files s rs dns cur now =
      let t = (S.write_file s resolv_bak cur).0 in
      rw (now, set_dns, writable)
        (
          files.written t resolv (managed dns) (writable t resolv (managed dns)),
          files.written_other t resolv (managed dns) resolv_bak (λ e. resolv-ne (sym e))
              ∙ files.written s resolv_bak cur (writable s resolv_bak cur),
          refl,
        )

  -- A crash loses the host's DNS: if a client dies after setDNS and a second one sets its DNS and
  -- is torn down, then /etc/resolv.conf holds what the first client wrote, which is not what the
  -- host had before, if that was anything else than this very text.
  pub dns_lost_after_crash :
      (s : S.State) (rs1 rs2 : RouteState) (dns1 dns2 cur : Text)
      → S.read_file s resolv ≡ some cur
      → cur ≢ managed dns1
      → let s1 = (set_dns S s rs1 dns1).0 in
        let (s2, rs, done) = set_dns S s1 rs2 dns2 in
        let end = (teardown S s2 rs).0 in
        (S.read_file end resolv ≡ some (managed dns1)) × (S.read_file end resolv ≢ some cur)
  unfolding teardown
  dns_lost_after_crash s rs1 rs2 dns1 dns2 cur now other =
      let s1 = (set_dns S s rs1 dns1).0 in
      let (managed1, _, _) = set_dns-files s rs1 dns1 cur now in
      let (_, saved, named) = set_dns-files s1 rs2 dns2 (managed dns1) managed1 in
      let s2 = (set_dns S s1 rs2 dns2).0 in
      let rs = (set_dns S s1 rs2 dns2).1 in
      let s3 = drop_routes S s2 rs in
      let left : S.read_file (restore_dns S s3 rs).0 resolv ≡ some (managed dns1) =
        read-restore_dns S files s3 rs (managed dns1) (writable s3 resolv (managed dns1)) named
          (read-drop_routes S files s2 rs resolv_bak ∙ saved) in
      (
        left,
        λ e.
            let same : some cur ≡ some (managed dns1) = sym e ∙ left in
            other (ground (arith, same)),
      )
