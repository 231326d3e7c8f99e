-- ===== src/Utils.antt =====
-- pkg/utils/utils.go: the validators. Each compiles a regular expression between `^` and `$` and
-- asks whether the whole text matches it.
pub mod Regexp
pub mod Octets
pub mod Addresses
pub mod Emails
use Regexp.{Regex, char, ◌·◌, ◌∣◌, star, optional, plus, times, up_to, matches}
use gotaxy.Prelude.{
  ℕ, String, ◌≡◌, refl, Bool, true, false, ◌&&◌, ◌||◌, codes, leb, ◌==◌, if◌then◌else◌,
}

-- a class `[lo-hi]`, and a single character
abbrev pub between : ℕ → ℕ → ℕ → Bool
between lo hi c = leb lo c && leb c hi

abbrev pub range : ℕ → ℕ → Regex
range lo hi = char (between lo hi)

abbrev pub only : ℕ → Regex
only c = char (between c c)

abbrev pub digit : Regex
digit = range b'0' b'9'

-- 25[0-5]|2[0-4][0-9]|[01]?[0-9][0-9]?
pub octet : Regex
octet =
    (only b'2' · only b'5' · range b'0' b'5')
    ∣ (only b'2' · range b'0' b'4' · digit)
    ∣ (optional (range b'0' b'1') · digit · optional digit)

-- ((octet)\.){3}(octet)
ip_pattern : Regex
unfolding octet
ip_pattern = times 3 (octet · only b'.') · octet

-- ip:[0-9]{1,5}
addr_pattern : Regex
unfolding ip_pattern
addr_pattern = ip_pattern · only b':' · digit · up_to 4 digit

abbrev pub is_letter : ℕ → Bool
is_letter c = between b'a' b'z' c || between b'A' b'Z' c

-- [a-zA-Z0-9.-]
abbrev pub is_domain_char : ℕ → Bool
is_domain_char c = is_letter c || between b'0' b'9' c || c == b'.' || c == b'-'

-- [a-zA-Z0-9._%+-]
abbrev pub is_local_char : ℕ → Bool
is_local_char c = is_domain_char c || c == b'_' || c == b'%' || c == b'+'

-- [a-zA-Z0-9._%+-]+@[a-zA-Z0-9.-]+\.[a-zA-Z]{2,}
email_pattern : Regex
email_pattern =
    plus (char is_local_char)
    · only b'@'
    · plus (char is_domain_char)
    · only b'.'
    · char is_letter
    · char is_letter
    · star (char is_letter)

unfoldable pub is_validate_ip : String → Bool
unfolding ip_pattern matches
is_validate_ip ip = if matches ip_pattern (codes ip) then true else false

unfoldable pub is_validate_email : String → Bool
unfolding email_pattern matches
is_validate_email email = if matches email_pattern (codes email) then true else false

unfoldable pub is_validate_addr : String → Bool
unfolding addr_pattern matches
is_validate_addr addr = if matches addr_pattern (codes addr) then true else false
