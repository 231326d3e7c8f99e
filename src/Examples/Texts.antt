-- ===== src/Examples/Texts.antt =====
-- Numbers and addresses as texts, at single inputs.
use gotaxy.Prelude.{◌≡◌, ◌↔◌, ◌-◌, ◌^◌, refl, true, false, none, some, codes}
use gotaxy.Strconv.{format_int, digits, atoi, signed}
use gotaxy.Utils.{is_validate_ip, is_validate_addr, is_validate_email}
use gotaxy.Utils.Addresses.{IsAddr, is_validate_addr_iff}
use gotaxy.Utils.Emails.{IsEmail, is_validate_email_iff}

format_tests :
    (format_int 0 ≡ "0") × (format_int 1234567 ≡ "1234567") × (format_int (2 ^ 64 - 20) ≡ "-20")
unfolding format_int digits
format_tests = (refl, refl, refl)

atoi_tests :
    (atoi "-20" ≡ some (2 ^ 64 - 20))
    × (atoi "+0080" ≡ some 80)
    × (atoi "9223372036854775808" ≡ none)
    × (atoi "" ≡ none)
    × (atoi "-" ≡ none)
    × (atoi "80a" ≡ none)
unfolding atoi signed
atoi_tests = (refl, refl, refl, refl, refl, refl)

ip_tests :
    (is_validate_ip "192.168.001.255" ≡ true)
    × (is_validate_ip "192.168.1.256" ≡ false)
    × (is_validate_ip "1.2.3" ≡ false)
unfolding is_validate_ip
ip_tests = (refl, refl, refl)

email_tests :
    (is_validate_email "a.b+c@mail.example.org" ≡ true)
    × (is_validate_email "a@b.c" ≡ false)
    × (is_validate_email "a b@example.org" ≡ false)
unfolding is_validate_email
email_tests = (refl, refl, refl)

-- The port of an address is one to five digits, and has no upper bound but 99999.
addr_tests :
    (is_validate_addr "127.0.0.1:3306" ≡ true)
    × (is_validate_addr "127.0.0.1:99999" ≡ true)
    × (is_validate_addr "127.0.0.1:" ≡ false)
unfolding is_validate_addr
addr_tests = (refl, refl, refl)

is_validate_addr_iff_example :
    (is_validate_addr "10.0.0.1:99999" ≡ true) ↔ IsAddr (codes "10.0.0.1:99999")
is_validate_addr_iff_example = is_validate_addr_iff "10.0.0.1:99999"

is_validate_email_iff_example : (is_validate_email "a.b@c.org" ≡ true) ↔ IsEmail (codes "a.b@c.org")
is_validate_email_iff_example = is_validate_email_iff "a.b@c.org"
