-- ===== src/Cursors.antt =====
-- packages/api/src/lib/cursor.ts: the opaque cursor of a page.
use telephone_booth_operator.Common.{
  ℕ, ◌≡◌, refl, ap, ◌∙◌, Bool, true, false, Option, none, some, ◌∷◌, ◌++◌, Text, index_of, around,
  around-index_of, contains, if◌then◌else◌,
}

abbrev pub tab : ℕ
tab = 9

-- `Buffer`'s base64url of UTF-8 and back, where decoding may throw, and the validity of
-- `new Date(timestamp)`.
pub record Codec : Type 0 where
  pub encode : Text → Text
  pub decode : Text → Option Text
  pub is_date : Text → Bool

pub record Cursor : Type 0 where
  pub timestamp : Text
  pub id : Text

unfoldable pub encode_cursor : Codec → Cursor → Text
encode_cursor c cursor = c.encode (cursor.timestamp ++ tab ∷ cursor.id)

-- The two parts around the tab, of which neither may be empty.
unfoldable pub cursor_of : Codec → Option (Text × Text) → Option Cursor
cursor_of c (some (timestamp, x ∷ id)) =
    if c.is_date timestamp then some (record { timestamp = timestamp; id = x ∷ id }) else none
cursor_of c _ = none

unfoldable pub decode_cursor : Codec → Text → Option Cursor
unfolding cursor_of
decode_cursor c raw = elim (c.decode raw) [
  | none ↦ none
  | some decoded ↦ cursor_of c (around decoded (index_of tab decoded))
]

-- A cursor of a date, which has no tab, and of an id that is not empty is read back as it was.
pub decode_cursor-encode_cursor :
    (c : Codec) (d x : ℕ) (timestamp id : Text)
    → ((s : Text) → c.decode (c.encode s) ≡ some s)
    → c.is_date (d ∷ timestamp) ≡ true
    → contains tab (d ∷ timestamp) ≡ false
    → decode_cursor c (encode_cursor c (record { timestamp = d ∷ timestamp; id = x ∷ id }))
      ≡ some (record { timestamp = d ∷ timestamp; id = x ∷ id })
unfolding decode_cursor encode_cursor cursor_of
decode_cursor-encode_cursor c d x timestamp id decoded date plain =
    rw (decode_cursor, decoded (d ∷ timestamp ++ tab ∷ x ∷ id))
      (ap (cursor_of c) (around-index_of tab d timestamp (x ∷ id) plain) ∙ rw date refl)
