-- ===== src/Tests/Networks.antt =====
-- Addresses of one network, for internal/limiter/keyer.
use forwardlimit.Common.{ℕ, ◌≡◌, refl, Option, none, some, [], ◌∷◌, if◌then◌else◌, arith}
use forwardlimit.Common.Int.{pos}
use forwardlimit.Common.Text.{Text, codes, text_eq, trim_space, trim_left, trim_right, is_space}
use forwardlimit.Keyer.Subnet.{Ip, to4, pow2, ip_subnet, ip_subnet-SameNetwork}

abbrev mapped : ℕ → Ip
mapped d = 0 ∷ 0 ∷ 0 ∷ 0 ∷ 0 ∷ 0 ∷ 0 ∷ 0 ∷ 0 ∷ 0 ∷ 255 ∷ 255 ∷ 203 ∷ 0 ∷ 113 ∷ d ∷ []

-- Knows one address in two notations, and another of its network.
abbrev known : Text → Option Ip
known s =
    if text_eq s (codes "203.0.113.7")
    then some (mapped 7)
    else if text_eq s (codes "::ffff:203.0.113.99")
    then some (mapped 99)
    else none

ip_subnet-SameNetwork_example :
    ip_subnet known (λ ip. ip) (pos 24) (pos 64) (codes " 203.0.113.7")
    ≡ ip_subnet known (λ ip. ip) (pos 24) (pos 64) (codes "::ffff:203.0.113.99")
unfolding text_eq trim_space trim_left trim_right is_space to4 pow2
ip_subnet-SameNetwork_example =
    ip_subnet-SameNetwork known (λ ip. ip) 24 (pos 64) (codes " 203.0.113.7")
      (codes "::ffff:203.0.113.99") (mapped 7) (mapped 99) (203 ∷ 0 ∷ 113 ∷ 7 ∷ [])
      (203 ∷ 0 ∷ 113 ∷ 99 ∷ []) (omega arith) refl refl refl refl (refl, (refl, (refl, (refl, tt))))
