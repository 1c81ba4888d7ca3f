-- ===== src/Server/Store/Leases.antt =====
-- The operations on the table `openrouter_leases` (zkapi-serverd/src/nullifier_store.rs), and the
-- migration that binds older lease reservations to their requests.
use mathlib.Core.Option
use zkapi_ef_collab.Base.{
  ℕ, String, List, [], ◌∷◌, ◌++◌, Bool, not, Option, none, some, ◌&&◌, ◌||◌, ◌==◌, ◌!=◌, string_eq,
  nat_eq, option_eq, if◌then◌else◌, as_i64, i64_leb, select_first, select_all, update_where,
  count_where, exists_where, delete_where,
}
use zkapi_ef_collab.Server.Wire.{ApiRequest}
use zkapi_ef_collab.Server.External.{Codec, success, failure}
use zkapi_ef_collab.Server.Error.{Result, ok, err, internal, database}
use zkapi_ef_collab.Server.Store.Defs.{
  Row, LeaseRow, LeaseRecord, Store, Action, row_to_openrouter_lease,
}
use zkapi_ef_collab.Server.Store.Nullifiers.{api_request_binding}

abbrev pub has_client : String → LeaseRow → Bool
has_client client_request_id row = row.client_request_id == client_request_id

abbrev pub has_client_and_status : String → String → LeaseRow → Bool
has_client_and_status client_request_id status row =
    (row.client_request_id == client_request_id) && (row.status == status)

abbrev pub provisioning_row : ApiRequest → String → String → String → ℕ → ℕ → ℕ → ℕ → ℕ → LeaseRow
provisioning_row request key json source issued_at expires_at settle_after limit now = record {
  client_request_id = request.client_request_id;
  request_nullifier = key;
  api_request_json = json;
  key_hash = none;
  key_source = source;
  status = "provisioning";
  issued_at = as_i64 issued_at;
  expires_at = as_i64 expires_at;
  settle_after = as_i64 settle_after;
  spending_limit_usd = limit;
  usage_usd = none;
  charge_applied = none;
  last_error = none;
  updated_at = as_i64 now;
}

-- `client_request_id` is the primary key, `request_nullifier` is UNIQUE.
abbrev pub insert_lease : LeaseRow → Action (Unit {0})
insert_lease row s =
    if exists_where
      (λ r.
        (r.client_request_id == row.client_request_id)
        || (r.request_nullifier == row.request_nullifier))
      s.leases
    then (err (database "lease insert failed"), s)
    else (ok tt, record s { leases = s.leases ++ row ∷ [] })

-- An UPDATE that must reach exactly one row.
abbrev pub update_one_lease : (LeaseRow → Bool) → (LeaseRow → LeaseRow) → Action (Unit {0})
update_one_lease test change s =
    if count_where test s.leases != 1
    then (
      err (internal "lease was not in provisioning state"),
      record s { leases = update_where test change s.leases },
    )
    else (ok tt, record s { leases = update_where test change s.leases })

unfoldable pub update_openrouter_lease_timing : String → ℕ → ℕ → ℕ → Action (Unit {0})
update_openrouter_lease_timing client_request_id expires_at settle_after now =
    update_one_lease (has_client_and_status client_request_id "provisioning") λ row. record row {
      expires_at = as_i64 expires_at;
      settle_after = as_i64 settle_after;
      updated_at = as_i64 now;
    }

-- `key_hash` is UNIQUE: the UPDATE fails when another row has the hash.
unfoldable pub activate_openrouter_lease : String → String → ℕ → Action (Unit {0})
activate_openrouter_lease client_request_id hash now s =
    let test = has_client_and_status client_request_id "provisioning" in
    if exists_where test s.leases
      && exists_where (λ row. not (test row) && (row.key_hash == some hash)) s.leases
    then (err (database "lease activation failed"), s)
    else update_one_lease test
        (λ row. record row { status = "active"; key_hash = some hash; updated_at = as_i64 now }) s

unfoldable pub remove_failed_openrouter_lease : String → Action (Unit {0})
remove_failed_openrouter_lease client_request_id s = (
  ok tt,
  record s {
    leases =
        delete_where
          (λ row.
            has_client_and_status client_request_id "provisioning" row && (row.key_hash == none))
          s.leases;
  },
)

unfoldable pub record_openrouter_lease_error : String → String → ℕ → Action (Unit {0})
record_openrouter_lease_error client_request_id error now s = (
  ok tt,
  record s {
    leases =
        update_where (has_client_and_status client_request_id "active")
          (λ row. record row { last_error = some error; updated_at = as_i64 now }) s.leases;
  },
)

unfoldable pub finalize_openrouter_lease : String → ℕ → ℕ → ℕ → Action (Unit {0})
finalize_openrouter_lease client_request_id usage charge now s = (
  ok tt,
  record s {
    leases =
        update_where (has_client client_request_id)
          (λ row. record row {
            status = "finalized";
            usage_usd = some usage;
            charge_applied = some (as_i64 charge);
            last_error = none;
            updated_at = as_i64 now;
          })
          s.leases;
  },
)

-- `ORDER BY settle_after ASC`: a stable insertion by the signed column.
abbrev insert_by_settlement : LeaseRow → List LeaseRow → List LeaseRow
insert_by_settlement row [] = row ∷ []
insert_by_settlement row (r ∷ rows) =
    if i64_leb row.settle_after r.settle_after
    then row ∷ r ∷ rows
    else r ∷ insert_by_settlement row rows

abbrev sort_by_settlement : List LeaseRow → List LeaseRow
sort_by_settlement [] = []
sort_by_settlement (row ∷ rows) = insert_by_settlement row (sort_by_settlement rows)

module _ {Sig : Type 0} (codec : Codec Sig) where
  open codec use {to_hex, request_to_json, request_from_json}

  unfoldable pub create_openrouter_lease :
      ApiRequest → String → ℕ → ℕ → ℕ → ℕ → ℕ → Action (Unit {0})
  create_openrouter_lease request source issued_at expires_at settle_after limit now s =
      elim (request_to_json request) [
        | failure e ↦ (err (database "lease serialization failed"), s)
        | success json ↦
            insert_lease
              (provisioning_row request (to_hex request.public_inputs.request_nullifier) json source
                issued_at expires_at settle_after limit now)
              s
      ]

  unfoldable pub lookup_openrouter_lease : String → Store → Option LeaseRecord
  lookup_openrouter_lease client_request_id s =
      Option.bind (select_first (has_client client_request_id) s.leases)
        (row_to_openrouter_lease codec)

  keep_parsed : List LeaseRow → List LeaseRecord
  keep_parsed [] = []
  keep_parsed (row ∷ rows) = elim (row_to_openrouter_lease codec row) [
    | none ↦ keep_parsed rows
    | some lease ↦ lease ∷ keep_parsed rows
  ]

  unfoldable pub due_openrouter_leases : ℕ → Store → List LeaseRecord
  unfolding keep_parsed
  due_openrouter_leases now s = keep_parsed (
      sort_by_settlement (
        select_all (λ row. (row.status == "active") && i64_leb row.settle_after (as_i64 now))
          s.leases))

  -- One round of the loop of `backfill_openrouter_request_bindings`; every UPDATE is committed.
  abbrev backfill_row : LeaseRow → List Row → Result (Unit {0}) × List Row
  backfill_row lease rows = elim (request_from_json lease.api_request_json) [
    | none ↦ (ok tt, rows)
    | some request ↦
        if (request.client_request_id != lease.client_request_id)
          || (to_hex request.public_inputs.request_nullifier != lease.request_nullifier)
        then (ok tt, rows)
        else elim (api_request_binding codec request) [
          | err e ↦ (err e, rows)
          | ok binding ↦ (
            ok tt,
            update_where
                (λ row.
                  (row.nullifier == lease.request_nullifier)
                  && (row.client_request_id == some lease.client_request_id)
                  && (row.payload_hash == some (to_hex request.payload_hash))
                  && (row.reservation_kind == "openrouter_lease")
                  && (row.api_request_binding == none))
                (λ row. record row { api_request_binding = some binding }) rows,
          )
        ]
  ]

  backfill_rows : List LeaseRow → List Row → Result (Unit {0}) × List Row
  backfill_rows [] rows = (ok tt, rows)
  backfill_rows (lease ∷ leases) rows =
      let (r, rows') = backfill_row lease rows in
      elim r [ err e ↦ (err e, rows') | ok _ ↦ backfill_rows leases rows' ]

  -- `NullifierStore::new` on existing tables ends with this migration.
  unfoldable pub backfill_openrouter_request_bindings : Action (Unit {0})
  unfolding backfill_rows
  backfill_openrouter_request_bindings s =
      let (r, rows) = backfill_rows s.leases s.nullifiers in (r, record s { nullifiers = rows })
