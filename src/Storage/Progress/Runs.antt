-- ===== src/Storage/Progress/Runs.antt =====
-- The sync cursors of storage/storage.cpp on a concrete store.
use chromatin_protocol.Prelude.{◌≡◌, refl, arith, some, none}
use chromatin_protocol.Storage.Layout.{SyncCursor, make_cursor_key}
use chromatin_protocol.Storage.Samples.{sample_maps, empty_store, calm, ns_a, hint_a}
use chromatin_protocol.Storage.Progress.{get_sync_cursor, set_sync_cursor, delete_sync_cursor}
use chromatin_protocol.Storage.Progress.Laws.{sync_cursor_view}

abbrev cursor : SyncCursor
cursor = record { seq_num = 7; round_count = 3; last_sync_timestamp = 500 }

sync_cursor_view_example :
    (get_sync_cursor (set_sync_cursor calm empty_store hint_a ns_a cursor) hint_a ns_a
      ≡ some cursor)
    × (get_sync_cursor (delete_sync_cursor calm empty_store hint_a ns_a) hint_a ns_a ≡ none)
unfolding empty_store make_cursor_key
sync_cursor_view_example =
    sync_cursor_view calm empty_store hint_a ns_a hint_a ns_a cursor refl refl
      (record { seq_fits = omega arith; rounds_fit = omega arith; time_fits = omega arith })
