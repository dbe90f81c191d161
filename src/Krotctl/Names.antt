-- ===== src/Krotctl/Names.antt =====
-- cmd/krotctl: the names of a client instance's device, table, config and unit.
pub mod Distinct
use krot_vpn.Prelude.{
  ◌+◌, ◌-◌, ◌%◌, ◌&&◌, List, [], ◌∷◌, ◌++◌, length, take, drop, ltb, leb, ◌==◌, if◌then◌else◌,
}
use krot_vpn.Net.{print_dec}
use krot_vpn.Netif.{Text}
use krot_vpn.Prelude.Bytes.{codes, bytes_eq}
use krot_vpn.Transport.Flow.{fnv_offset, mix_all}

unfoldable pub client_cfg_path : Text → Text
client_cfg_path name = codes "/etc/krot/client-" ++ (name ++ codes ".json")

unfoldable pub client_unit : Text → Text
client_unit name = codes "krot-client@" ++ name

-- `n[:15]` of what is longer.
unfoldable pub tun_dev_name : Text → Text
tun_dev_name name = let n = codes "mir-" ++ name in if ltb 15 (length n) then take 15 n else n

-- hash/fnv's New32a: the bytes are mixed in as in flowHash.
unfoldable pub table_for : Text → Text
table_for name = print_dec (100 + mix_all fnv_offset name % 256)

-- What follows the last `/`; `after` is what was read since the last one.
unfoldable pub base_from : Text → Text → Text
base_from after [] = after
base_from after (c ∷ cs) =
    let fresh = base_from [] cs in
    let longer = base_from (after ++ c ∷ []) cs in if c == 47 then fresh else longer

-- `filepath.Base` of a path that does not end in `/`, as a match of the pattern does not.
unfoldable pub base : Text → Text
base path = base_from [] path

unfoldable pub trim_prefix : Text → Text → Text
trim_prefix s prefix =
    if bytes_eq (take (length prefix) s) prefix then drop (length prefix) s else s

unfoldable pub trim_suffix : Text → Text → Text
trim_suffix s suffix =
    let n = length s - length suffix in
    if leb (length suffix) (length s) && bytes_eq (drop n s) suffix then take n s else s

-- The loop over the matches of filepath.Glob.
unfoldable pub discover_instances : List Text → List Text
unfolding base trim_prefix trim_suffix
discover_instances [] = []
discover_instances (m ∷ matches) =
    let name = trim_suffix (trim_prefix (base m) (codes "client-")) (codes ".json") in
    let rest = discover_instances matches in if bytes_eq name [] then rest else name ∷ rest
