-- ===== src/Tests/Referrer.antt =====
-- internal/referrer/referrer.go: the tables in another order.
use glimt.Base.{[], ◌∷◌, ◌++◌, ◌≢◌, codes, Unicode}
use glimt.Model.{ref_referral}
use glimt.Referrer.{Table, search_engines, social_networks, by_host}
use glimt.Referrer.Order.{t_com_never_referral}

abbrev unicode : Unicode
unicode = record { lower_wide = λ s. s; upper_wide = λ s. s }

-- The first two entries change places.
abbrev swapped : Table → Table
swapped [] = []
swapped (a ∷ []) = a ∷ []
swapped (a ∷ b ∷ t) = b ∷ a ∷ t

t_com_never_referral_example :
    (by_host unicode search_engines social_networks
      (codes "microsof" ++ codes "t.com")
      (codes "a.se")).0
    ≢ ref_referral
t_com_never_referral_example = t_com_never_referral unicode (codes "microsof") (codes "a.se")
