-- ===== src/Service/CheckDb.antt =====
-- examples/checkdb/main.go: prints what a database file holds.
use multi_region.Prelude.{
  ℕ, ◌≡◌, ◌↔◌, refl, ap, ◌∙◌, map, Bool, true, Option, none, some, List, [], ◌∷◌, ◌++◌, Bytes, str,
  decimal, length, lookup, pos,
}
use mathlib.Core.List.{Memᴰ, flatten}
use multi_region.Envelope.{Envelope}
use multi_region.Service.Storage.Bolt.{Disk}
use multi_region.Service.Storage.{QueryFilter, Error, query}
use multi_region.Service.Storage.Found.{matches-anything}
use multi_region.Service.Storage.Opening.{
  OpenError, Opened, opened, failed, create_bucket, new_bolt_storage,
}
use multi_region.Service.Storage.History.{Op, run}
use multi_region.Service.Storage.Latest.{query_history}
use multi_region.Service.Storage.Once.{AreOnce, query-AreOnce, query-length}

pub data Outcome : Type 0 where
  printed : Bytes → Outcome
  open_panic : OpenError → Outcome
  query_panic : Error → Outcome

abbrev no_filter : QueryFilter
no_filter = record { kind = []; since = pos 0 }

line : Envelope → Bytes
line e =
    str "id="
    ++ (e.id ++ (str " kind=" ++ (e.kind ++ (str " payload=" ++ (e.payload ++ str "\n")))))

lines : List Envelope → Bytes
lines [] = []
lines (e ∷ es) = line e ++ lines es

report : List Envelope → Bytes
unfolding lines line
report es = lines es ++ (str "total=" ++ (decimal (length es) ++ str "\n"))

print_found : List Envelope × Option Error → Outcome
print_found (es, none) = printed (report es)
print_found (es, some e) = query_panic e

-- The line of an envelope, and the last line for so many.
abbrev pub entry_line : Envelope → Bytes
entry_line e =
    str "id="
    ++ (e.id ++ (str " kind=" ++ (e.kind ++ (str " payload=" ++ (e.payload ++ str "\n")))))

abbrev pub total_line : ℕ → Bytes
total_line n = str "total=" ++ (decimal n ++ str "\n")

lines-entry_line : (es : List Envelope) → lines es ≡ flatten (map entry_line es)
unfolding lines line flatten
lines-entry_line [] = refl
lines-entry_line (e ∷ es) = ap (λ t. entry_line e ++ t) (lines-entry_line es)

print_found-report :
    (r : List Envelope × Option Error) → r.1 ≡ none → print_found r ≡ printed (report r.0)
unfolding print_found
print_found-report (es, none) h = refl
print_found-report (es, some e) h = cc

print_all : {d : Disk} → Opened d → Outcome
unfolding print_found
print_all {d} (opened b) = print_found (query d no_filter b)
print_all (failed e) = open_panic e

module _ (d : Disk) where
  -- `main`, on the answers of bbolt for the file.
  pub check_db : Option (Option d.Bucket) → Bool → Outcome
  unfolding print_all
  check_db found commits = print_all (new_bolt_storage d found commits)

  -- On a file that a node has left behind after any calls of Save and Delete, some of which may have
  -- failed, if opening it succeeds: the tool prints, for each of the envelopes last saved under their
  -- id and not deleted since, one line with its id, kind and payload, and for no other, one line
  -- after the other, and after them the number of these envelopes.
  pub check_db_prints :
      (ops : List Op)
      → let (b, m) = run d ops (d.empty, []) in
        (results : List Envelope) × (check_db (some (some b)) true
          ≡ printed (flatten (map entry_line results) ++ total_line (length m)))
        × AreOnce results
        × ((env : Envelope) → Memᴰ env results ↔ (lookup env.id m ≡ some env))
  unfolding check_db new_bolt_storage create_bucket print_all report
  check_db_prints ops =
      let (b, m) = run d ops (d.empty, []) in
      let results = (query d no_filter b).0 in
      let (ok, found) = query_history d ops no_filter in
      let same : (env : Envelope) → Memᴰ env results ↔ (lookup env.id m ≡ some env) =
        λ env. (λ p. ((found env).0 p).1, λ q. (found env).1 (matches-anything env, q)) in
      (
        results,
        print_found-report (query d no_filter b) ok
            ∙ ap printed (
                ap (λ t. t ++ total_line (length results)) (lines-entry_line results)
                ∙ ap (λ n. flatten (map entry_line results) ++ total_line n)
                    (query-length d ops no_filter same)),
        query-AreOnce d ops no_filter,
        same,
      )
