-- ===== src/Tests/System.antt =====
-- The theorems on overlapping calls, each at one run.
use text.Mathlib.TextEquality.{eq_iff}
use zkapi_ef_collab.Base.{
  Bool, String, [], arith, if◌then◌else◌, inl, nat_eq, refl, some, string_eq, ℕ, ℕ_discrete, ◌==◌,
  ◌∷◌, ◌≡◌, ◌≢◌,
}
use zkapi_ef_collab.Server.External.{Outcome, success, failure}
use zkapi_ef_collab.Server.Error.{ServerError, ok, err, nullifier_used, internal}
use zkapi_ef_collab.Server.Store.{Store, Row, TranscriptRecord, clearance_reserved}
use zkapi_ef_collab.Server.Store.Nullifiers.{null_row, reserve, finalize, finalized_row}
use zkapi_ef_collab.Server.Store.Rows.{row_at, IsUnique}
use zkapi_ef_collab.Server.Store.Effects.{archived}
use zkapi_ef_collab.Server.Store.Advance.{SameReservation}
use zkapi_ef_collab.Server.Processor.{proxy}
use zkapi_ef_collab.Server.Processor.Validate.{validate_and_reserve, recover_by_nullifier}
use zkapi_ef_collab.Server.Processor.Finalize.{
  transcript_of, finalize_request, process_clearance, clearance_response,
}
use zkapi_ef_collab.Server.System.Steps.{Reach, reserves, one}
use zkapi_ef_collab.Server.System.Spending.{Spent, Reach-keeps_final, Reach-IsUnique, Reach-Spent}
use zkapi_ef_collab.Server.System.Once.{finalize_once}
use zkapi_ef_collab.Server.System.Exclusion.{
  clearance_excludes_spending, spending_excludes_clearance,
}
use zkapi_ef_collab.Server.System.Recovery.{recover_by_nullifier_later}
use zkapi_ef_collab.Server.Watcher.{ArchivedInputs}
use zkapi_ef_collab.Tests.Demo.{
  request, reply, draws, server, codec, codec-IsLawful, empty, clearance,
}
use zkapi_ef_collab.Tests.Runs.{
  binding, row, reserved_store, next, response, answered_store, cleared_store, finalizes, clears,
}
use zkapi_ef_collab.Tests.Processor.{reply-IsInRange}

-- Another client reserves the nullifier 9 meanwhile.
abbrev later : Store → Store
later s = (reserve codec 9 "req-2" 1 1020 s).1

to_later : (s : Store) → Reach codec s (later s)
to_later s = one (reserves s 9 "req-2" 1 1020)

clearance_excludes_spending_example :
    ((e : ServerError) × (validate_and_reserve server request proxy 1030 1031 (later cleared_store)
        ≡ (err e, later cleared_store)))
    × ((e : ServerError) × (finalize_request server request reply draws 1032 (later cleared_store)
          ≡ (err e, later cleared_store)))
clearance_excludes_spending_example =
    clearance_excludes_spending server clearance request proxy reply draws 1010 1030 1031 1032 empty
      cleared_store (later cleared_store) (clearance_response server 4) tt refl clears
      (to_later cleared_store)

spending_excludes_clearance_example :
    process_clearance server clearance 1030 (later reserved_store)
    ≡ (err nullifier_used, later reserved_store)
unfolding string_eq
spending_excludes_clearance_example =
    spending_excludes_clearance server clearance 1030 reserved_store (later reserved_store) row refl
      (inl refl) (to_later reserved_store)

recover_by_nullifier_later_example :
    recover_by_nullifier server 4 (later answered_store)
    ≡ record { status = "ok"; nullifier_status = "finalized"; request_response = some response }
unfolding string_eq
recover_by_nullifier_later_example =
    recover_by_nullifier_later server request reply draws 1012 reserved_store answered_store
      (later answered_store) response (refl, tt) finalizes (to_later answered_store) row
      codec-IsLawful reply-IsInRange refl refl

abbrev first_inputs : ArchivedInputs
first_inputs = record {
  statement_type = 1;
  protocol_version = 1;
  chain_id = 1;
  contract_address = 13;
  active_root = 11;
  state_sig_epoch = 0;
  state_sig_root = 0;
  request_nullifier = 4;
  anon_commitment_x = 1;
  anon_commitment_y = 2;
  expiry_ts = 100;
  solvency_bound = 100;
}

-- The one text that has the fields of the first version.
abbrev has_field : String → String → Bool
has_field json field = json == "{statement_type:1}"

abbrev read_inputs : String → Outcome ArchivedInputs
read_inputs json =
    if has_field json "statement_type" then success first_inputs else failure "missing field"

transcript : TranscriptRecord ℕ
transcript = transcript_of server request "proxy" reply next draws (1 ∷ 2 ∷ 3 ∷ []) binding 1012

cleared_status : ◌≢◌ {A = String} "ClearanceReserved" "Reserved"
cleared_status = ground (arith, eq_iff "ClearanceReserved" "Reserved")

finalized :
    finalize codec 4 transcript 1012 reserved_store
    ≡ (ok tt, archived codec 4 transcript 1012 reserved_store)
unfolding finalize string_eq ℕ_discrete
finalized = refl

finalize_once_example :
    (finalize codec 4 transcript 1040 (later (archived codec 4 transcript 1012 reserved_store)) ≡ (
      err (internal "nullifier not in Reserved state or does not exist"),
      later (archived codec 4 transcript 1012 reserved_store),
    ))
    × (r : Row) × (row_at (codec.to_hex 4) reserved_store.nullifiers ≡ some r)
    × (row_at (codec.to_hex 4) (later (archived codec 4 transcript 1012 reserved_store)).nullifiers
        ≡ some (finalized_row codec transcript 1012 r))
finalize_once_example =
    finalize_once codec 4 transcript transcript 1012 1040 reserved_store
      (archived codec 4 transcript 1012 reserved_store)
      (later (archived codec 4 transcript 1012 reserved_store)) (refl, tt) finalized (to_later _)

Reach-keeps_final_example :
    row_at (codec.to_hex 4) (later cleared_store).nullifiers
    ≡ some (null_row (codec.to_hex 4) clearance_reserved 1010)
unfolding string_eq
Reach-keeps_final_example =
    Reach-keeps_final (codec.to_hex 4) (null_row (codec.to_hex 4) clearance_reserved 1010) refl
      cleared_status (to_later cleared_store)

Reach-IsUnique_example : IsUnique (later cleared_store).nullifiers
Reach-IsUnique_example = Reach-IsUnique (refl, tt) (to_later cleared_store)

same_reservation : SameReservation row row
same_reservation = record {
  same_kind = refl;
  same_client = refl;
  same_payload = refl;
  same_binding = refl;
  same_creation = refl;
}

Reach-Spent_example : Spent row (row_at (codec.to_hex 4) (later reserved_store).nullifiers)
unfolding string_eq
Reach-Spent_example =
    Reach-Spent (codec.to_hex 4) row (same_reservation, inl refl) (to_later reserved_store)
