-- ===== src/Tests/Orders.antt =====
-- Two orders of the same pending sends at a concrete run.
use mathlib.Core.List.{Permᴰ}
use wu_kong_easy_sdk_rust.Base.{refl, [], ◌∷◌}
use wu_kong_easy_sdk_rust.Types.Options.{default_options}
use wu_kong_easy_sdk_rust.Session.State.{PendingMap, lookup}
use wu_kong_easy_sdk_rust.Session.Round.{session}
use wu_kong_easy_sdk_rust.Session.Order.Branches.{with_pending}
use wu_kong_easy_sdk_rust.Session.Order.Runs.{SameButOrder, session-SameButOrder}
use wu_kong_easy_sdk_rust.Tests.Serde.{serde, unary64}
use wu_kong_easy_sdk_rust.Tests.Sessions.{awaiting, whole_run}

abbrev the_other_way : PendingMap
the_other_way =
    ("b", record { deadline = 20; reply = 8 }) ∷ ("a", record { deadline = 50; reply = 7 }) ∷ []

session-SameButOrder_example :
    SameButOrder
      (session serde unary64 default_options awaiting whole_run)
      (session serde unary64 default_options (with_pending awaiting the_other_way) whole_run)
unfolding lookup
session-SameButOrder_example =
    session-SameButOrder serde unary64 default_options awaiting the_other_way whole_run
      (Permᴰ.swap refl refl) (refl, (refl, tt))
