-- ===== src/Sessions/Tests.antt =====
-- Two analyses, one of them expired.
use auto_correlation.Prelude.{String, ◌≡◌, some, [], ◌∷◌}
use auto_correlation.Prelude.Dict.{Dict}
use auto_correlation.Sessions.{Analysis, create, get}
use auto_correlation.Sessions.Laws.{get-create}

abbrev old : Analysis String
old = record { id = "a1"; expires_at = 50; owner_key = some "user:1"; results = "r1" }

abbrev fresh : Analysis String
fresh = record { id = "a2"; expires_at = 150; owner_key = some "user:1"; results = "r2" }

abbrev stored : Dict (Analysis String)
stored = ("a1", old) ∷ []

get-create_example : (get 100 "a2" (create fresh stored)).0 ≡ some fresh
get-create_example = get-create fresh 100 "a2" stored (tt, tt)
