-- ===== src/Builder/Layout.antt =====
-- The loops that both `finish` functions of crates/storage/src/builder run over their entries: the
-- offset tables with their sentinel, and the bytes of a table.
use todb.Prelude.{ℕ, ◌+◌, ◌*◌, ◌≡◌, refl, List, [], ◌∷◌, ◌++◌, length, map, arith, length-append}
use todb.Bytes.{Bytes, as_u32, be_bytes, length-be_bytes}

-- `for entry in &self.entries { offsets.push(data_offset as u32); data_offset += len }`, with the
-- sentinel that is pushed after the loop, over the lengths of the entries.
unfoldable pub push_offsets : List ℕ → ℕ → List ℕ
push_offsets [] data_offset = as_u32 data_offset ∷ []
push_offsets (len ∷ lens) data_offset = as_u32 data_offset ∷ push_offsets lens (data_offset + len)

-- `data_offset` after that loop.
unfoldable pub advance_offset : List ℕ → ℕ → ℕ
advance_offset [] data_offset = data_offset
advance_offset (len ∷ lens) data_offset = advance_offset lens (data_offset + len)

-- `for off in &offsets { buf.extend_from_slice(&off.to_be_bytes()) }`
unfoldable pub extend_u32s : List ℕ → Bytes
extend_u32s [] = []
extend_u32s (off ∷ offs) = be_bytes 4 off ++ extend_u32s offs

-- `for part in parts { buf.extend_from_slice(part) }`
unfoldable pub extend_all : List Bytes → Bytes
extend_all [] = []
extend_all (part ∷ parts) = part ++ extend_all parts

unfoldable pub sum : List ℕ → ℕ
sum [] = 0
sum (n ∷ ns) = n + sum ns

pub advance_offset-eq-sum : (lens : List ℕ) (off : ℕ) → advance_offset lens off ≡ off + sum lens
unfolding advance_offset sum
advance_offset-eq-sum [] off = omega arith
advance_offset-eq-sum (len ∷ lens) off = omega (arith, advance_offset-eq-sum lens (off + len))

pub length-push_offsets :
    (lens : List ℕ) (off : ℕ) → length (push_offsets lens off) ≡ length lens + 1
unfolding push_offsets
length-push_offsets [] off = omega arith
length-push_offsets (len ∷ lens) off = omega (arith, length-push_offsets lens (off + len))

pub length-extend_u32s : (offs : List ℕ) → length (extend_u32s offs) ≡ 4 * length offs
unfolding extend_u32s
length-extend_u32s [] = omega arith
length-extend_u32s (off ∷ offs) = omega (
  arith,
  length-append (be_bytes 4 off) (extend_u32s offs),
  length-be_bytes 4 off,
  length-extend_u32s offs,
)

pub length-extend_all : (parts : List Bytes) → length (extend_all parts) ≡ sum (map length parts)
unfolding extend_all sum
length-extend_all [] = refl
length-extend_all (part ∷ parts) =
    omega (arith, length-append part (extend_all parts), length-extend_all parts)
