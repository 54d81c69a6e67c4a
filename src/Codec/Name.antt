-- ===== src/Codec/Name.antt =====
-- NAME payloads: printing and parsing are inverse to each other.
use mathlib.Core.Path.{subst}
use native.Mathlib.Nat.{mod-eq_of_lt}
use chromatin_protocol.Prelude.{
  ℕ, ◌+◌, ◌^◌, ◌≤◌, ◌<◌, ◌≡◌, refl, sym, ap, arith, true, false, none, some, List, [], ◌++◌,
  append-nil, length, length-append, length-drop, drop, slice, drop-slice, length-slice, All-slice,
  IsByte, take_all, At, At-start, At-slice, At-next, AreBytes, Bool-cases, inl, inr, le→ltb,
}
use chromatin_protocol.Endian.{write_u16_be, read_u16_be}
use chromatin_protocol.Endian.Words.{
  read_u16_be-lt, write_u16_be-read_u16_be, length-write_u16_be, read_u16_be-write_u16_be_all,
}
use chromatin_protocol.Codec.{
  is_name, parse_name_payload, make_name_data, NamePayload, has_magic, name_magic,
}
use chromatin_protocol.Codec.Magic.{has_magic-append, has_magic→append}

is_name_intro :
    (bytes : List ℕ)
    → has_magic name_magic bytes ≡ true
    → length bytes ≡ 38 + read_u16_be (slice 4 2 bytes)
    → is_name bytes ≡ true
unfolding is_name
is_name_intro bytes h e = ground arith

is_name_elim :
    (bytes : List ℕ)
    → is_name bytes ≡ true
    → (has_magic name_magic bytes ≡ true) × (length bytes ≡ 38 + read_u16_be (slice 4 2 bytes))
unfolding is_name
is_name_elim bytes h = ground arith

-- The parts of a printed name, at the offsets where the parser looks.
module _ (name h : List ℕ) (short : length name ≤ 65535) (size : length h ≡ 32) where
  abbrev printed : List ℕ
  printed = name_magic ++ (write_u16_be (length name) ++ (name ++ h))

  At-field : At printed 4 (write_u16_be (length name) ++ (name ++ h))
  At-field = At-next printed 0 4 name_magic _ (At-start printed) refl

  At-name : At printed 6 (name ++ h)
  At-name = At-next printed 4 2 _ _ At-field (length-write_u16_be (length name))

  At-hash : At printed (6 + length name) (h ++ [])
  At-hash = rw append-nil (At-next printed 6 (length name) name h At-name refl)

  name_len_field : read_u16_be (slice 4 2 printed) ≡ length name
  name_len_field =
      rw (At-slice printed 4 2 _ _ At-field (length-write_u16_be (length name)))
        (read_u16_be-write_u16_be_all (length name) (omega arith))

  length-printed : length printed ≡ 38 + length name
  length-printed = omega (
    arith,
    length-append (write_u16_be (length name)) (name ++ h),
    length-append name h,
    length-write_u16_be (length name),
  )

  is_name-printed : is_name printed ≡ true
  is_name-printed =
      is_name_intro printed (has_magic-append name_magic _ refl) (rw name_len_field length-printed)

  parse-printed : parse_name_payload printed ≡ some (record { name = name; target_hash = h })
  unfolding parse_name_payload
  parse-printed =
      rw (is_name-printed, name_len_field)
        (ap some (λ i. record {
          name = At-slice printed 6 (length name) name h At-name refl i;
          target_hash = At-slice printed (6 + length name) 32 h [] At-hash size i;
        }))

-- A name of at most 65535 bytes with a 32-byte target is printed to a payload that parses to the
-- same name and target.
pub parse-make_name_data :
    (name h : List ℕ)
    → length name ≤ 65535
    → length h ≡ 32
    → (bytes : List ℕ) × (make_name_data name h ≡ some bytes)
      × (parse_name_payload bytes ≡ some (record { name = name; target_hash = h }))
unfolding make_name_data
parse-make_name_data name h short size =
    (printed name h short size, ground arith, parse-printed name h short size)

-- A payload that is a name, cut into its four fields.
module _ (bytes : List ℕ) (b : AreBytes bytes) (ok : is_name bytes ≡ true) where
  name_len : ℕ
  name_len = read_u16_be (slice 4 2 bytes)

  size_of : length bytes ≡ 38 + name_len
  unfolding name_len
  size_of = (is_name_elim bytes ok).1

  length-field : length (slice 4 2 bytes) ≡ 2
  length-field = length-slice 4 2 bytes (omega (arith, size_of))

  name_len-lt : name_len < 2 ^ 16
  unfolding name_len
  name_len-lt = read_u16_be-lt _ length-field (All-slice IsByte 4 2 bytes b)

  length-name : length (slice 6 name_len bytes) ≡ name_len
  length-name = length-slice 6 name_len bytes (omega (arith, size_of))

  field_bytes : write_u16_be name_len ≡ slice 4 2 bytes
  unfolding name_len
  field_bytes = write_u16_be-read_u16_be _ length-field (All-slice IsByte 4 2 bytes b)

  tail_bytes : drop (6 + name_len) bytes ≡ slice (6 + name_len) 32 bytes
  tail_bytes = sym (
      take_all 32 (drop (6 + name_len) bytes)
        (omega (arith, length-drop (6 + name_len) bytes, size_of)))

  reassembled :
      name_magic
        ++ (write_u16_be name_len ++ (slice 6 name_len bytes ++ slice (6 + name_len) 32 bytes))
      ≡ bytes
  reassembled =
      rw (field_bytes, ← tail_bytes, ← drop-slice 6 name_len bytes, ← drop-slice 4 2 bytes)
        (sym (has_magic→append name_magic bytes (is_name_elim bytes ok).0))

  make-parsed : make_name_data (slice 6 name_len bytes) (slice (6 + name_len) 32 bytes) ≡ some bytes
  unfolding make_name_data
  make-parsed =
      rw (length-name, le→ltb 65535 name_len (omega (arith, name_len-lt)), mod-eq_of_lt name_len-lt)
        (ap some reassembled)

  parse_fields :
      parse_name_payload bytes
      ≡ some (record { name = slice 6 name_len bytes; target_hash = slice (6 + name_len) 32 bytes })
  unfolding parse_name_payload name_len
  parse_fields = rw ok

parse_refused : (bytes : List ℕ) → is_name bytes ≡ false → parse_name_payload bytes ≡ none
unfolding parse_name_payload
parse_refused bytes e = rw e

-- A payload of bytes that parses is the one that is printed from the parts.
pub make-parse_name_payload :
    (bytes : List ℕ) (p : NamePayload)
    → AreBytes bytes
    → parse_name_payload bytes ≡ some p
    → make_name_data p.name p.target_hash ≡ some bytes
make-parse_name_payload bytes p b h = elim (Bool-cases (is_name bytes)) [
  | inl ok ↦
      subst (λ q. make_name_data (NamePayload.name q) (NamePayload.target_hash q) ≡ some bytes)
        (cc (parse_fields bytes b ok, h)) (make-parsed bytes b ok)
  | inr bad ↦ cc (parse_refused bytes bad)
]
