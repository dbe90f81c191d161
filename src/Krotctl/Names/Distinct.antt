-- ===== src/Krotctl/Names/Distinct.antt =====
-- Which instances can be told apart by their names.
use krot_vpn.Prelude.{
  ℕ, zero, suc, ◌-◌, ◌≤◌, ◌≡◌, refl, sym, ap, ◌∙◌, ◌↔◌, inl, inr, true, false, List, [], ◌∷◌, ◌++◌,
  map, arith, length, length-append, take, drop, length-take, All, take-length-append,
  drop-append_of_length, ltb, leb, ◌==◌, ltb_false→le, Bool-cases,
}
use mathlib.Core.List.{append-nil, append_assoc}
use krot_vpn.Netif.{Text}
use krot_vpn.Prelude.Bytes.{codes, bytes_eq, bytes_eq_iff}
use krot_vpn.Krotctl.Names.{
  client_cfg_path, tun_dev_name, base_from, base, trim_prefix, trim_suffix, discover_instances,
}

take_all : (n : ℕ) (xs : Text) → length xs ≤ n → take n xs ≡ xs
take_all zero [] h = refl
take_all zero (x ∷ xs) h = absurd (omega arith)
take_all (suc n) [] h = refl
take_all (suc n) (x ∷ xs) h = ap (◌∷◌ x) (take_all n xs (omega arith))

tun_dev_name_lem : (name : Text) → tun_dev_name name ≡ codes "mir-" ++ take 11 name
unfolding tun_dev_name
tun_dev_name_lem name = elim (Bool-cases (ltb 15 (length (codes "mir-" ++ name)))) [
  | inl long ↦ rw long refl
  | inr short ↦
      rw short (
        ap (λ x. codes "mir-" ++ x)
          (sym (take_all 11 name (omega (arith, ltb_false→le _ _ short)))))
]

-- Two instances get the same device if and only if their names begin with the same eleven bytes,
-- and the name of a device has at most fifteen.
pub tun_dev_name_same :
    (a b : Text)
    → ((tun_dev_name a ≡ tun_dev_name b) ↔ (take 11 a ≡ take 11 b)) × (length (tun_dev_name a) ≤ 15)
tun_dev_name_same a b =
    rw (tun_dev_name_lem a, tun_dev_name_lem b)
      (
        ((λ same. ap (drop 4) same), (λ same. ap (λ x. codes "mir-" ++ x) same)),
        omega (arith, length-take 11 a),
      )

-- No slash.
abbrev pub IsPlain : Text → Type 0
IsPlain name = All (λ c. (c == 47) ≡ false) name

IsPlain-append : (a b : Text) → IsPlain a → IsPlain b → IsPlain (a ++ b)
IsPlain-append [] b pa pb = pb
IsPlain-append (c ∷ a) b (h, pa) pb = (h, IsPlain-append a b pa pb)

base_from-plain : (after name : Text) → IsPlain name → base_from after name ≡ after ++ name
unfolding base_from
base_from-plain after [] plain = sym (append-nil after)
base_from-plain after (c ∷ cs) (h, plain) =
    rw (h, base_from) (base_from-plain (after ++ c ∷ []) cs plain ∙ append_assoc after (c ∷ []) cs)

base-client_cfg_path :
    (name : Text)
    → IsPlain name
    → base (client_cfg_path name) ≡ codes "client-" ++ (name ++ codes ".json")
unfolding base base_from client_cfg_path
base-client_cfg_path name plain =
    base_from-plain (codes "client-") (name ++ codes ".json")
      (IsPlain-append name (codes ".json") plain (refl, (refl, (refl, (refl, (refl, tt))))))

trim_suffix-append : (name suffix : Text) → trim_suffix (name ++ suffix) suffix ≡ name
unfolding trim_suffix
trim_suffix-append name suffix =
    let shorter : length (name ++ suffix) - length suffix ≡ length name =
      omega (arith, length-append name suffix) in
    let fits : leb (length suffix) (length (name ++ suffix)) ≡ true =
      ground (arith, length-append name suffix) in
    let kept : drop (length name) (name ++ suffix) ≡ suffix =
      drop-append_of_length (length name) name suffix refl in
    let same : bytes_eq suffix suffix ≡ true = (bytes_eq_iff suffix suffix).1 refl in
    rw (fits, trim_suffix, shorter, kept, same) (take-length-append name suffix)

-- The instances whose configs match the pattern are found by their names: uninstall stops each
-- client with a config, if no name is empty or has a slash.
pub discover_instances-client_cfg_path :
    (names : List Text)
    → All (λ name. (bytes_eq name [] ≡ false) × IsPlain name) names
    → discover_instances (map client_cfg_path names) ≡ names
unfolding discover_instances trim_prefix
discover_instances-client_cfg_path [] plain = refl
discover_instances-client_cfg_path (name ∷ names) ((some_, plain), rest) =
    rw (base-client_cfg_path name plain, trim_suffix-append name (codes ".json"), some_)
      (ap (◌∷◌ name) (discover_instances-client_cfg_path names rest))
