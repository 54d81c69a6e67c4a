-- ===== src/Storage/Progress/Laws.antt =====
-- A sync cursor is read as it was set, until it is set again or deleted.
use chromatin_protocol.Prelude.{
  ℕ, ◌^◌, ◌<◌, ◌≡◌, refl, arith, List, ◌++◌, true, false, none, some, Bool-cases, inl, inr,
  if◌then◌else◌, length, length-append, bytes_eq,
}
use chromatin_protocol.Endian.{store_u32_be, store_u64_be}
use chromatin_protocol.Endian.Words.{length-store_u32_be, length-store_u64_be}
use chromatin_protocol.External.Mdbx.{Mdbx}
use chromatin_protocol.Storage.Layout.{
  Storage, Io, read, make_cursor_key, SyncCursor, encode_cursor_value,
}
use chromatin_protocol.Storage.Values.{decode-encode_cursor_value}
use chromatin_protocol.Storage.Progress.{
  cursor_in, get_sync_cursor, set_sync_cursor, delete_sync_cursor,
}

length-encode_cursor_value : (c : SyncCursor) → length (encode_cursor_value c) ≡ 20
unfolding encode_cursor_value
length-encode_cursor_value c = omega (
  arith,
  length-append (store_u64_be c.seq_num)
      (store_u32_be c.round_count ++ store_u64_be c.last_sync_timestamp),
  length-append (store_u32_be c.round_count) (store_u64_be c.last_sync_timestamp),
  length-store_u64_be c.seq_num,
  length-store_u32_be c.round_count,
  length-store_u64_be c.last_sync_timestamp,
)

-- The fields fit their machine integers.
pub record IsCursor (c : SyncCursor) : Type 0 where
  pub seq_fits : c.seq_num < 2 ^ 64
  pub rounds_fit : c.round_count < 2 ^ 32
  pub time_fits : c.last_sync_timestamp < 2 ^ 64

cursor_in-encode : (c : SyncCursor) → IsCursor c → cursor_in (some (encode_cursor_value c)) ≡ some c
unfolding cursor_in
cursor_in-encode c w =
    rw
      (
        length-encode_cursor_value c,
        decode-encode_cursor_value c w.seq_fits w.rounds_fit w.time_fits,
      )
      refl

-- Where libmdbx does not throw, in the writes nor in the reads, a cursor of machine integers that is set is what is read for its peer
-- and namespace, a deletion leaves none to read there, and both leave what is read at every other key.
pub sync_cursor_view :
    ⦃M : Mdbx⦄ (io : Io) (s : Storage) (peer ns peer' ns' : List ℕ) (c : SyncCursor)
    → io.works ≡ true
    → s.read_fails (make_cursor_key peer' ns') ≡ false
    → IsCursor c
    → (get_sync_cursor (set_sync_cursor io s peer ns c) peer' ns' ≡ (
        if bytes_eq (make_cursor_key peer ns) (make_cursor_key peer' ns')
        then some c
        else get_sync_cursor s peer' ns'))
      × (get_sync_cursor (delete_sync_cursor io s peer ns) peer' ns' ≡ (
          if bytes_eq (make_cursor_key peer ns) (make_cursor_key peer' ns')
          then none
          else get_sync_cursor s peer' ns'))
unfolding read get_sync_cursor set_sync_cursor delete_sync_cursor
sync_cursor_view ⦃M⦄ io s peer ns peer' ns' c w reads fits =
    let key = make_cursor_key peer ns in
    let key' = make_cursor_key peer' ns' in
    elim (Bool-cases (bytes_eq key key')) [
      | inl e ↦ (
        rw (w, reads, M.lookup-upsert key key' (encode_cursor_value c) s.cursors, e)
            (cursor_in-encode c fits),
        rw (w, reads, M.lookup-erase key key' s.cursors, e) (unfold cursor_in in refl),
      )
      | inr e ↦ (
        rw (w, reads, M.lookup-upsert key key' (encode_cursor_value c) s.cursors, e) refl,
        rw (w, reads, M.lookup-erase key key' s.cursors, e) refl,
      )
    ]
