-- ===== src/Tests/Instance.antt =====
-- The library functions that the runs use: an instance of Libraries with all its laws.
use pact_protobuf_plugin.Base.{
  ℕ, ◌<◌, ◌≤◌, ◌≡◌, refl, Option, none, some, List, ◌++◌, length, take, drop, leb, le→leb,
  lt→not_leb, if◌then◌else◌, arith,
}
use pact_protobuf_plugin.Base.Int.{IsU64}
use pact_protobuf_plugin.Base.Bytes.{to_le_bytes, from_le_bytes}
use pact_protobuf_plugin.Libraries.{Libraries}
use mathlib.Core.List.{reverse}
use pact_protobuf_plugin.Tests.Varint.{
  varint_bytes, read_varint, read_varint-varint_bytes, read_varint_shrinks, key_bytes, read_key,
  read_key-key_bytes, read_key_shrinks,
}
use pact_protobuf_plugin.Tests.Groups.{
  sort, sort-IsSorted, with_key-sort, group, group-IsDistinct, group_nonempty, group_values,
}

-- A read of `k` bytes.
abbrev pub read_bytes : {A : Type 0} → (List ℕ → A) → ℕ → List ℕ → Option (A × List ℕ)
read_bytes f k bs = if leb k (length bs) then some (f (take k bs), drop k bs) else none

pub read_bytes_enough :
    {A : Type 0} (f : List ℕ → A) (k : ℕ) (bs : List ℕ)
    → k ≤ length bs
    → read_bytes f k bs ≡ some (f (take k bs), drop k bs)
read_bytes_enough f k bs h = rw (le→leb k (length bs) h)

pub read_bytes_short :
    {A : Type 0} (f : List ℕ → A) (k : ℕ) (bs : List ℕ) → length bs < k → read_bytes f k bs ≡ none
read_bytes_short f k bs h = rw (lt→not_leb k (length bs) h)

pub encode_varint-law :
    (n : ℕ) (rest : List ℕ) → IsU64 n → read_varint (varint_bytes 9 n ++ rest) ≡ some (n, rest)
encode_varint-law n rest h = read_varint-varint_bytes 9 n rest (omega arith)

abbrev pub test_libraries : Libraries
test_libraries = record {
  encode_varint = varint_bytes 9;
  decode_varint = read_varint;
  encode_key = key_bytes;
  decode_key = read_key;
  decode_varint-encode_varint = encode_varint-law;
  decode_key-encode_key = read_key-key_bytes;
  decode_varint_shrinks = read_varint_shrinks;
  decode_key_shrinks = read_key_shrinks;
  get_le = read_bytes from_le_bytes;
  get_be = read_bytes (λ bs. from_le_bytes (reverse bs));
  put_le = to_le_bytes;
  copy_to_bytes = read_bytes (λ bs. bs);
  get_le_enough = read_bytes_enough from_le_bytes;
  get_le_short = read_bytes_short from_le_bytes;
  get_be_enough = read_bytes_enough (λ bs. from_le_bytes (reverse bs));
  get_be_short = read_bytes_short (λ bs. from_le_bytes (reverse bs));
  put_le_lem = λ k n. refl;
  copy_to_bytes_enough = read_bytes_enough (λ bs. bs);
  copy_to_bytes_short = read_bytes_short (λ bs. bs);
  sorted_by = λ A key xs. sort key xs;
  sorted_by-IsSorted = λ A key xs. sort-IsSorted key xs;
  with_key-sorted_by = λ A key xs k. with_key-sort key k xs;
  into_group_map = λ A ps. group ps;
  into_group_map_keys = λ A ps. group-IsDistinct ps;
  into_group_map_nonempty = λ A ps. group_nonempty ps;
  into_group_map_values = λ A ps k. group_values ps k;
}
