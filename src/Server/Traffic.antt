-- ===== src/Server/Traffic.antt =====
-- The counters after any number of traffic reports. Each report runs in a goroutine of its own, so a
-- list of reports stands for the order in which they happened to run.
use gotaxy.Prelude.{
  ℕ, ◌+◌, ◌%◌, ◌^◌, String, ◌≡◌, refl, some, List, [], ◌∷◌, arith, str_eq, if◌then◌else◌,
  Bool-cases, inl, inr,
}
use gotaxy.Int64.{Int64, add64}
use gotaxy.EventBus.{traffic}
use gotaxy.Session.{Mapping, with_more_traffic, add_traffic}
use gotaxy.Session.View.{view, IsLinked, view-change, change-IsLinked}
use gotaxy.Server.{GotaxyServer, on_traffic_report}

-- A mapping's name and a number of bytes.
abbrev pub Report : Type 0
Report = String × Int64

unfoldable pub reports : {Db : Type 0} → GotaxyServer Db → List Report → GotaxyServer Db
unfolding on_traffic_report
reports s [] = s
reports s ((name, bytes) ∷ rest) = reports (on_traffic_report s (traffic name bytes)) rest

-- The bytes of all reports, and of those for one name.
abbrev pub all_bytes : List Report → ℕ
all_bytes [] = 0
all_bytes ((name, bytes) ∷ rest) = bytes + all_bytes rest

abbrev pub bytes_of : String → List Report → ℕ
bytes_of k [] = 0
bytes_of k ((name, bytes) ∷ rest) = (if str_eq name k then bytes else 0) + bytes_of k rest

-- The total grows by the bytes of all reports, modulo 2 ^ 64.
pub reports-total :
    {Db : Type 0} (s : GotaxyServer Db) (l : List Report)
    → (reports s l).config.total_traffic % 2 ^ 64 ≡ (s.config.total_traffic + all_bytes l) % 2 ^ 64
unfolding reports add64
reports-total s [] = omega arith
reports-total s ((name, bytes) ∷ rest) =
    omega (arith, reports-total (on_traffic_report s (traffic name bytes)) rest)

-- In a linked table, a name that has a mapping has one after any reports, and the counter has grown
-- by the bytes that were reported for the name, modulo 2 ^ 64.
pub reports-mapping :
    {Db : Type 0} (s : GotaxyServer Db) (l : List Report) (k : String) (x : Mapping)
    → IsLinked s.sessions
    → view s.sessions k ≡ some x
    → (y : Mapping) × (view (reports s l).sessions k ≡ some y)
      × (y.traffic % 2 ^ 64 ≡ (x.traffic + bytes_of k l) % 2 ^ 64)
unfolding reports add64
reports-mapping s [] k x v h = (x, h, omega arith)
reports-mapping s ((name, bytes) ∷ rest) k x v h =
    let s' = on_traffic_report s (traffic name bytes) in
    let linked : IsLinked s'.sessions =
      unfold add_traffic in change-IsLinked name (with_more_traffic bytes) (λ z. refl) v in
    let seen = view-change name k (with_more_traffic bytes) v in
    elim (Bool-cases (str_eq name k)) [
      | inl mine ↦
          let found : view s'.sessions k ≡ some (with_more_traffic bytes x) =
            unfold add_traffic in ground (arith, seen) in
          let (y, e, t) = reports-mapping s' rest k (with_more_traffic bytes x) linked found in
          (y, e, rw mine (omega arith))
      | inr other ↦
          let found : view s'.sessions k ≡ some x = unfold add_traffic in ground (arith, seen) in
          let (y, e, t) = reports-mapping s' rest k x linked found in (y, e, rw other (omega arith))
    ]
