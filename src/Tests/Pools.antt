-- ===== src/Tests/Pools.antt =====
-- The pool headers, the library's client and the names of status codes.
use net_way.Prelude.{
  ℕ, ◌+◌, ◌-◌, ◌≡◌, ◌⊎◌, refl, true, false, List, [], ◌∷◌, Option, none, some, length, arith,
}
use net_way.Sdk.Real.{Library, Ledger, Logger, owned, client_new, client_new_leaks_nothing}
use net_way.ErrorMapping.StatusName.{safe_status_code_name, read_hex, status_code_named}
use net_way.Pools.Tables.{
  Database, create_table_sql, timestamp_index_sql, tag_name_index_sql, status_index_sql,
  create_table_if_not_exists, until_failure, failure_is_committed,
}

-- A library whose memory is the number of plugins held: its defaults have a logger that is to be
-- freed and one other plugin, and it makes no client.
abbrev empty_library : Library ℕ ℕ ℕ ℕ ℕ
empty_library = record {
  blank = record { logging = none; others = 0 };
  good = 0;
  set_default = λ c w. (
    0,
    record { logging = some (record { log = 0; context = 0; clear = true }); others = 1 },
    w + 2,
  );
  new_with_config = λ c w. (none, w);
  config_clear = λ c w. w - owned (λ n. n) c;
  delete = λ k w. w;
}

empty_library-Ledger : Ledger empty_library (λ n. n) (λ w. w)
empty_library-Ledger = record {
  allocates = λ c w. refl;
  takes_over = λ c w k e. absurd (ground arith);
  leaves = λ c w e. refl;
  frees = λ c w. refl;
}

abbrev stderr_logger : Logger ℕ ℕ
stderr_logger = record { log = 1; context = 0; clear = false }

client_new_leaks_nothing_example : (client_new empty_library stderr_logger none 3).1 ≡ 3
client_new_leaks_nothing_example =
    client_new_leaks_nothing empty_library stderr_logger (λ n. n) (λ w. w) refl empty_library-Ledger
      3

status_code_named_example :
    ((c : ℕ) (cs : List ℕ)
      → ◌≡◌ {A = Option (List ℕ)} none (some (c ∷ cs))
      → safe_status_code_name none 2156527616 ≡ c ∷ cs)
    × (((◌≡◌ {A = Option (List ℕ)} none none) ⊎ (◌≡◌ {A = Option (List ℕ)} none (some [])))
        → (digits : List ℕ) × (safe_status_code_name none 2156527616 ≡ b'0' ∷ b'x' ∷ digits)
          × (length digits ≡ 8)
          × (read_hex 0 digits ≡ 2156527616))
status_code_named_example = status_code_named none 2156527616 (omega arith)

-- A database on which no statement goes well, and which counts what was asked of it.
abbrev full_disk : Database ℕ
full_disk = record {
  begin_transaction = λ w. (true, w + 1);
  commit_transaction = λ w. (true, w + 100);
  rollback_transaction = λ w. (true, w + 1000);
  execute = λ sql w. (false, w + 10);
}

failure_is_committed_example :
    create_table_if_not_exists full_disk 0
    ≡ full_disk.commit_transaction (
        until_failure full_disk
          (create_table_sql ∷ timestamp_index_sql ∷ tag_name_index_sql ∷ status_index_sql ∷ [])
          (full_disk.begin_transaction 0).1)
failure_is_committed_example = failure_is_committed full_disk 0

-- It answers true, after the first statement failed and nothing was rolled back.
failure_answers_true : create_table_if_not_exists full_disk 0 ≡ (true, 111)
unfolding create_table_if_not_exists
failure_answers_true = failure_is_committed full_disk 0
