-- ===== src/Version/Greatest.antt =====
-- The row that GetLatestVersion gives is of a version that none of the others is above.
use net_llm.Prelude.{
  String, Bool, true, false, Option, none, some, List, [], ◌∷◌, ◌≡◌, ◌≢◌, ◌↔◌, ◌⊎◌, inl, inr, refl,
  subst, sym, if◌then◌else◌, if_cases, select, str_eq, Bool-cases, arith,
}
use net_llm.Version.Semantic.{SemanticVersion, is_greater_than}
use net_llm.Version.Parse.{parse_version, Error, Result, ok, err}
use net_llm.Version.Order.{is_greater_than_asym}
use net_llm.Version.Manager.{
  ModelVersion, RwMutex, free, reading, writing, Statement, select_all, scan_row, r_lock, Outcome,
  blocks, returns, Answer, found, failed, version_not_found, database_failed, VersionManager,
}
use net_llm.Version.Latest.{
  scanned, is_later, latest_from, row_of, latest_of, latest_answer, list_versions,
  get_latest_version,
}
use net_llm.Version.Compared.{
  Among, Candidate, Parses, NoneAbove, NoneParses, Left, Left-skip, Left-taken, Left-kept,
}

is_greater_than_irrefl : (v : SemanticVersion) → is_greater_than v v ≡ false
is_greater_than_irrefl v = ground (arith, is_greater_than_asym v v)

by_result :
    (P : Candidate → Type 0) (row : ModelVersion) (rows : List ModelVersion) (latest : Candidate)
    (parsed : Result SemanticVersion)
    → ((e : Error) → parsed ≡ err e → P (latest_from latest rows))
    → ((v : SemanticVersion)
        → parsed ≡ ok v
        → P (latest_from (if is_later v latest then some (row, v) else latest) rows))
    → P (elim parsed [
      | err e ↦ latest_from latest rows
      | ok v ↦ latest_from (if is_later v latest then some (row, v) else latest) rows
    ])
by_result P row rows latest (ok v) on_err on_ok = on_ok v refl
by_result P row rows latest (err e) on_err on_ok = on_err e refl

latest_from-Left :
    (rows : List ModelVersion) (latest : Candidate)
    → Parses latest
    → Left rows latest (latest_from latest rows)
unfolding latest_from
latest_from-Left [] none h = (refl, λ row i. absurd i)
latest_from-Left [] (some (row, v)) h = (h, inr refl, λ y i. absurd i, is_greater_than_irrefl v)
latest_from-Left (row ∷ rows) latest h =
    by_result (Left (row ∷ rows) latest) row rows latest (parse_version row.version)
      (λ e off.
        Left-skip row rows latest e off (latest_from latest rows) (latest_from-Left rows latest h))
      (λ u at.
        if_cases (λ c. Left (row ∷ rows) latest (latest_from c rows)) (is_later u latest)
          (some (row, u)) latest
          (λ later.
            Left-taken row rows latest u at later (latest_from (some (row, u)) rows)
              (latest_from-Left rows (some (row, u)) at))
          (λ early.
            Left-kept row rows latest u at early (latest_from latest rows)
              (latest_from-Left rows latest h)))

abbrev pub of_model : String → List ModelVersion → List ModelVersion
of_model model_id rows = select (λ row. str_eq row.model_id model_id) rows

-- What a call of `GetLatestVersion` that ends may return.
abbrev pub Returned : (Statement → Bool) → List ModelVersion → Answer (Option ModelVersion) → Type 0
Returned fault rows (failed e) =
    ((e ≡ database_failed select_all) × (fault select_all ≡ true))
    ⊎ (((e ≡ database_failed scan_row) × (fault scan_row ≡ true) × (rows ≢ []))
        ⊎ ((e ≡ version_not_found) × (rows ≡ [])))
Returned fault rows (found none) = (rows ≢ []) × NoneParses rows
Returned fault rows (found (some row)) =
    Among row rows × (v : SemanticVersion) × (parse_version row.version ≡ ok v) × NoneAbove rows v

-- How it may end: it blocks exactly where a writer comes to wait.
abbrev pub LatestAnswer :
    (Statement → Bool) → Bool → List ModelVersion → Outcome (Answer (Option ModelVersion)) → Type 0
LatestAnswer fault waits rows blocks = waits ≡ true
LatestAnswer fault waits rows (returns a) = (waits ≡ false) × Returned fault rows a

-- The same rows, in any order.
abbrev pub SameRows : List ModelVersion → List ModelVersion → Type 0
SameRows given rows = (row : ModelVersion) → Among row given ↔ Among row rows

Returned-row_of :
    (fault : Statement → Bool) (row : ModelVersion) (rows : List ModelVersion) (r : Candidate)
    → Left (row ∷ rows) none r
    → Returned fault (row ∷ rows) (found (row_of r))
Returned-row_of fault row rows none (_, none_parse) = (λ e. absurd (ground (arith, e)), none_parse)
Returned-row_of fault row rows (some (l, v)) (parses, from, below, _) =
    (elim from [ inl i ↦ i | inr same ↦ absurd (ground (arith, same)) ], v, parses, below)

nil_of_none : (rows : List ModelVersion) → ((row : ModelVersion) → ¬ (Among row rows)) → rows ≡ []
nil_of_none [] h = refl
nil_of_none (row ∷ rows) h = absurd (h row (inl refl))

nil_of_SameRows : (given rows : List ModelVersion) → SameRows given rows → given ≡ [] → rows ≡ []
nil_of_SameRows given rows same nil =
    nil_of_none rows (λ row i. subst (Among row) nil ((same row).1 i))

-- The order of the rows does not matter.
Returned-same :
    (fault : Statement → Bool) (given rows : List ModelVersion)
    → SameRows given rows
    → (a : Answer (Option ModelVersion)) → Returned fault given a
    → Returned fault rows a
Returned-same fault given rows same (failed e) h = elim h [
  | inl broken ↦ inl broken
  | inr (inl (is, broken, some_given)) ↦ inr (
      inl (
        is,
        broken,
        λ nil. some_given (nil_of_SameRows rows given (λ row. ((same row).1, (same row).0)) nil),
      ))
  | inr (inr (is, nil)) ↦ inr (inr (is, nil_of_SameRows given rows same nil))
]
Returned-same fault given rows same (found none) (some_given, none_parse) = (
  λ nil. some_given (nil_of_SameRows rows given (λ row. ((same row).1, (same row).0)) nil),
  λ row i. none_parse row ((same row).1 i),
)
Returned-same fault given rows same (found (some row)) (i, v, parses, below) =
    ((same row).0 i, v, parses, λ y j. below y ((same y).1 j))

abbrev answer_of : Answer (List ModelVersion) → Answer (Option ModelVersion)
answer_of (failed e) = failed e
answer_of (found rows) = latest_of rows

latest_answer-returns :
    (a : Answer (List ModelVersion)) → latest_answer (returns a) ≡ returns (answer_of a)
latest_answer-returns (failed e) = refl
latest_answer-returns (found rows) = refl

Returned-scanned :
    (fault : Statement → Bool) (rows : List ModelVersion)
    → Returned fault rows (answer_of (scanned fault rows))
Returned-scanned fault [] = inr (inr (refl, refl))
Returned-scanned fault (row ∷ rows) = elim (Bool-cases (fault scan_row)) [
  | inl broken ↦ rw broken (inr (inl (refl, broken, λ e. absurd (ground (arith, e)))))
  | inr works ↦ rw works (Returned-row_of fault row rows _ (latest_from-Left (row ∷ rows) none tt))
]

-- What ListVersions gives, once it has the mutex.
abbrev listed : (Statement → Bool) → List ModelVersion → Answer (List ModelVersion)
listed fault rows =
    if fault select_all then failed (database_failed select_all) else scanned fault rows

Returned-listed :
    (fault : Statement → Bool) (given rows : List ModelVersion)
    → SameRows given rows
    → LatestAnswer fault false rows (latest_answer (returns (listed fault given)))
Returned-listed fault given rows same =
    subst (LatestAnswer fault false rows) (sym (latest_answer-returns (listed fault given))) (
      refl,
      Returned-same fault given rows same (answer_of (listed fault given))
          (elim (Bool-cases (fault select_all)) [
            | inl broken ↦ rw broken (inl (refl, broken))
            | inr works ↦ rw works (Returned-scanned fault given)
          ]),
    )

-- A call can lock the mutex for reading.
abbrev pub IsReadable : RwMutex → Type 0
IsReadable mu = (held : RwMutex) × (r_lock mu ≡ some held)

-- Where the mutex can be locked for reading, and `rows` are the rows that the walk over the result
-- reads, in any order (those of the model, where it does not break off): GetLatestVersion blocks exactly
-- where a writer comes to wait between its two locks for reading. Where it ends, it fails only with the
-- statement, with a row that cannot be scanned, or where no row is read; it gives no row only where rows
-- are read and none of them parses; and the row that it gives is one of them, its version parses, and no
-- version of them that parses is greater.
pub get_latest_version-LatestAnswer :
    (fault : Statement → Bool) (read : List ModelVersion → List ModelVersion) (waits : Bool)
    (vm : VersionManager) (model_id : String) (rows : List ModelVersion)
    → SameRows (read (of_model model_id vm.db)) rows
    → IsReadable vm.mu
    → LatestAnswer fault waits rows (get_latest_version fault read waits vm model_id)
unfolding get_latest_version list_versions
get_latest_version-LatestAnswer fault read waits vm model_id rows same readable =
    by_mutex vm.mu waits readable
  where
    by_mutex :
        (mu : RwMutex) (waits : Bool)
        → IsReadable mu
        → LatestAnswer fault waits rows
            (get_latest_version fault read waits (record vm { mu = mu }) model_id)
    by_mutex free true h = refl
    by_mutex free false h = Returned-listed fault (read (of_model model_id vm.db)) rows same
    by_mutex (reading n false) true h = refl
    by_mutex (reading n false) false h =
        Returned-listed fault (read (of_model model_id vm.db)) rows same
    by_mutex (reading n true) waits h = absurd (ground (arith, h.1))
    by_mutex writing waits h = absurd (ground (arith, h.1))
