-- ===== src/Utils/Addresses.antt =====
-- What the validators of addresses accept.
use gotaxy.Prelude.{
  ℕ, ◌≤◌, ◌≡◌, ◌∙◌, refl, sym, true, ◌↔◌, List, [], ◌∷◌, ◌++◌, ap, arith, All, length, String,
  codes, append_assoc, if_true,
}
use gotaxy.Utils.Regexp.{Regex, ◌·◌, Matches, one, both, parts, matches_iff}
use gotaxy.Utils.Octets.{IsDigit, IsOctet, char-Head, char-cons, octet_iff, up_to-digit_iff}
use gotaxy.Utils.{octet, only, ip_pattern, addr_pattern, is_validate_ip, is_validate_addr}

-- Four octets with a dot between each two.
abbrev pub IsIp : List ℕ → Type 0
IsIp u =
    (a : List ℕ) × (b : List ℕ) × (c : List ℕ) × (d : List ℕ) × (u
      ≡ a ++ b'.' ∷ (b ++ b'.' ∷ (c ++ b'.' ∷ d)))
    × IsOctet a
    × IsOctet b
    × IsOctet c
    × IsOctet d

-- An IP address, a colon, and one to five digits.
abbrev pub IsAddr : List ℕ → Type 0
IsAddr u =
    (a : List ℕ) × (p : List ℕ) × (u ≡ a ++ b':' ∷ p)
    × IsIp a
    × All IsDigit p
    × (1 ≤ length p)
    × (length p ≤ 5)

abbrev dot : Regex
dot = only b'.'

ends_dotted :
    {u : List ℕ} → Matches (octet · dot) u → (a : List ℕ) × (u ≡ a ++ b'.' ∷ []) × IsOctet a
ends_dotted m =
    let (a, v, e, o, p) = parts m in
    let (c, f, h) = parts p in
    let same : c ≡ b'.' = ground arith in
    (a, e ∙ ap (λ t. a ++ t) (f ∙ ap (λ x. x ∷ []) same), (octet_iff a).0 o)

begins_dotted :
    {r : Regex} {u : List ℕ}
    → Matches ((octet · dot) · r) u
    → (a : List ℕ) × (t : List ℕ) × (u ≡ a ++ b'.' ∷ t) × IsOctet a × Matches r t
begins_dotted m =
    let (s, t, e, n, k) = parts m in
    let (a, e', h) = ends_dotted n in
    (a, t, e ∙ ap (λ x. x ++ t) e' ∙ append_assoc a (b'.' ∷ []) t, h, k)

dotted :
    {r : Regex} (a : List ℕ) {t : List ℕ}
    → IsOctet a
    → Matches r t
    → Matches ((octet · dot) · r) (a ++ b'.' ∷ t)
dotted a {t} h m =
    both (a ++ b'.' ∷ []) t (sym (append_assoc a (b'.' ∷ []) t))
      (both a (b'.' ∷ []) refl ((octet_iff a).1 h) (one refl)) m

regroup :
    (a b c d : List ℕ)
    → (a ++ b'.' ∷ (b ++ b'.' ∷ (c ++ b'.' ∷ []))) ++ d ≡ a ++ b'.' ∷ (b ++ b'.' ∷ (c ++ b'.' ∷ d))
regroup a b c d = simp append_assoc

IsIp-sound : (u : List ℕ) → Matches ip_pattern u → IsIp u
unfolding ip_pattern
IsIp-sound u m =
    let (s, d, e, n, k) = parts m in
    let (a, t, e1, ha, n1) = begins_dotted n in
    let (b, t', e2, hb, n2) = begins_dotted n1 in
    let (c, e3, hc) = ends_dotted n2 in
    (a, b, c, d, rw (e, e1, e2, e3) (regroup a b c d), ha, hb, hc, (octet_iff d).0 k)

IsIp-complete : (u : List ℕ) → IsIp u → Matches ip_pattern u
unfolding ip_pattern
IsIp-complete u (a, b, c, d, e, ha, hb, hc, hd) =
    both (a ++ b'.' ∷ (b ++ b'.' ∷ (c ++ b'.' ∷ []))) d (e ∙ sym (regroup a b c d))
      (dotted a ha (dotted b hb (both c (b'.' ∷ []) refl ((octet_iff c).1 hc) (one refl))))
      ((octet_iff d).1 hd)

IsAddr-sound : (u : List ℕ) → Matches addr_pattern u → IsAddr u
unfolding addr_pattern
IsAddr-sound u m =
    let (a, t, e, n, k) = parts m in
    let (c, p, e1, hc, k1) = char-Head k in
    let (d, q, e2, hd, k2) = char-Head k1 in
    let (ds, l) = (up_to-digit_iff 4 q).0 k2 in
    let same : c ≡ b':' = ground arith in
    (a, d ∷ q, rw (e, e1, e2, same), IsIp-sound a n, (ground arith, ds), omega arith, omega arith)

IsAddr-complete : (u : List ℕ) → IsAddr u → Matches addr_pattern u
unfolding addr_pattern
IsAddr-complete u (a, [], e, ha, hp, l, m) = absurd (omega arith)
IsAddr-complete u (a, d ∷ q, e, ha, hp, l, m) =
    both a (b':' ∷ d ∷ q) e (IsIp-complete a ha) (
      char-cons b':' refl
        (char-cons d (ground arith) ((up_to-digit_iff 4 q).1 (hp.1, omega arith))))

-- `IsValidateIP` accepts exactly four numbers up to 255, of one to three digits each, with dots
-- between them.
pub is_validate_ip_iff : (ip : String) → (is_validate_ip ip ≡ true) ↔ IsIp (codes ip)
unfolding is_validate_ip
is_validate_ip_iff ip =
    let (sound, complete) = matches_iff ip_pattern (codes ip) in
    rw if_true (λ h. IsIp-sound _ (sound h), λ h. complete (IsIp-complete _ h))

-- `IsValidateAddr` accepts exactly an IP address of that form, a colon, and one to five digits: the
-- number of the port is not bounded otherwise.
pub is_validate_addr_iff : (addr : String) → (is_validate_addr addr ≡ true) ↔ IsAddr (codes addr)
unfolding is_validate_addr
is_validate_addr_iff addr =
    let (sound, complete) = matches_iff addr_pattern (codes addr) in
    rw if_true (λ h. IsAddr-sound _ (sound h), λ h. complete (IsAddr-complete _ h))
