-- ===== src/Installations/Purged.antt =====
-- packages/api/src/routes/installations.ts, `DELETE /:id`: what a purge leaves.
use text.Mathlib.Text.{◌==◌ as str_eq}
use telephone_booth_operator.Common.{
  either, ℕ, ◌≡◌, refl, sym, subst, String, Bool, true, false, not, Option, none, some, List, [],
  ◌∷◌, ◌==◌, ==_iff, ==_refl, ltb, any, all, filter, count, delete_many, All, All-imp, Bool-cases,
  Option-cases, inl, inr, arith, All-update_many,
}
use telephone_booth_operator.Store.{File, Installation, Db, is_open}
use telephone_booth_operator.Store.Summary.{question_in}
use telephone_booth_operator.Era.{find_installation, find_active_installation}
use telephone_booth_operator.Installations.Purging.{
  message_in, in_flight, moved_to, rehome, delete_rows, is_referenced, deletable, delete_files,
  PurgeAnswer, purge_rows, purge_moved, purge_existing, purge,
}

-- Every question, message and instruction has its file.
abbrev HasFile : List File → ℕ → Type 0
HasFile files audio = any (λ f. f.id == audio) files ≡ true

pub record HasAudio (db : Db) : Type 0 where
  pub questions : All (λ q. HasFile db.files q.audio_id) db.questions
  pub messages : All (λ m. HasFile db.files m.audio_id) db.messages
  pub instructions : All (HasFile db.files) db.instructions

any-delete_many :
    (d : File → Bool) (audio : ℕ) (files : List File)
    → ((f : File) → (f.id == audio) ≡ true → d f ≡ false)
    → HasFile files audio
    → HasFile (delete_many d files) audio
any-delete_many d audio [] h k = k
any-delete_many d audio (f ∷ files) h k = ground (arith, h f, k, any-delete_many d audio files h)

any-filter :
    (p q : File → Bool) (files : List File)
    → ((f : File) → p f ≡ true → q f ≡ false)
    → any p (filter q files) ≡ false
any-filter p q [] h = refl
any-filter p q (f ∷ files) h = ground (arith, h f, any-filter p q files h)

any-all :
    (p q : File → Bool) (files : List File)
    → ((f : File) → p f ≡ true → q f ≡ false)
    → all q files ≡ true
    → any p files ≡ false
any-all p q [] h k = refl
any-all p q (f ∷ files) h k = ground (arith, h f, k, any-all p q files h)

-- A file that is referenced is not among the ones that are deleted.
deletable-unreferenced :
    (db : Db) (orphans : List File) (audio : ℕ)
    → is_referenced db audio ≡ true
    → any (λ d. d.id == audio) (deletable db orphans) ≡ false
unfolding deletable
deletable-unreferenced db orphans audio r =
    let free : File → Bool = λ f. not (is_referenced db f.id) in
    let taken : (f : File) → (f.id == audio) ≡ true → free f ≡ false = λ f e.
      subst (λ i. not (is_referenced db i) ≡ false) (sym ((==_iff f.id audio).0 e))
        (ground (arith, r)) in
    elim (Bool-cases (all free orphans)) [
      | inl e ↦ rw e (any-all (λ d. d.id == audio) free orphans taken e)
      | inr e ↦ rw e (any-filter (λ d. d.id == audio) free orphans taken)
    ]

delete_files-HasFile :
    (db : Db) (orphans : List File) (audio : ℕ)
    → is_referenced db audio ≡ true
    → HasFile db.files audio
    → HasFile (delete_files db (deletable db orphans)).files audio
unfolding delete_files
delete_files-HasFile db orphans audio r h =
    any-delete_many (λ f. any (λ d. d.id == f.id) (deletable db orphans)) audio db.files
      (λ f e.
        subst (λ i. any (λ d. d.id == i) (deletable db orphans) ≡ false)
          (sym ((==_iff f.id audio).0 e)) (deletable-unreferenced db orphans audio r))
      h

module _ {A : Type 0} where
  All-both :
      {P Q R : A → Type 0} (xs : List A)
      → ((x : A) → P x → Q x → R x)
      → All P xs
      → All Q xs
      → All R xs
  All-both [] f p q = tt
  All-both (x ∷ xs) f p q = (f x p.0 q.0, All-both xs f p.1 q.1)

  -- Each entry of a list is found in it.
  All-found : (key : A → ℕ) (xs : List A) → All (λ x. any (λ y. key y == key x) xs ≡ true) xs
  All-found key [] = tt
  All-found key (x ∷ xs) =
      (ground (arith, ==_refl (key x)), All-imp xs (λ y h. ground (arith, h)) (All-found key xs))

delete_files-HasAudio :
    (db : Db) (orphans : List File)
    → HasAudio db
    → HasAudio (delete_files db (deletable db orphans))
unfolding delete_files is_referenced
delete_files-HasAudio db orphans h = record {
  questions =
      All-both db.questions
        (λ q f r. delete_files-HasFile db orphans q.audio_id (ground (arith, r)) f) h.questions
        (All-found (λ q. q.audio_id) db.questions);
  messages =
      All-both db.messages
        (λ m f r. delete_files-HasFile db orphans m.audio_id (ground (arith, r)) f) h.messages
        (All-found (λ m. m.audio_id) db.messages);
  instructions =
      All-both db.instructions (λ a f r. delete_files-HasFile db orphans a (ground (arith, r)) f)
        h.instructions (All-found (λ a. a) db.instructions);
}

All-delete_many :
    {A : Type 0} (P : A → Type 0) (d : A → Bool) (xs : List A) → All P xs → All P (delete_many d xs)
All-delete_many P d [] h = tt
All-delete_many P d (x ∷ xs) h = elim (Bool-cases (d x)) [
  | inl e ↦ rw e (All-delete_many P d xs h.1)
  | inr e ↦ rw e (h.0, All-delete_many P d xs h.1)
]

delete_rows-HasAudio : (db : Db) (e : ℕ) → HasAudio db → HasAudio (delete_rows db e)
unfolding delete_rows
delete_rows-HasAudio db e h = record {
  questions =
      All-delete_many (λ q. HasFile db.files q.audio_id) (question_in e) db.questions h.questions;
  messages =
      All-delete_many (λ m. HasFile db.files m.audio_id) (message_in e) db.messages h.messages;
  instructions = h.instructions;
}

-- The result of `rehome`, if there is one.
abbrev IfSome : (Db → Type 0) → Option Db → Type 0
IfSome P none = Unit
IfSome P (some db) = P db

rehome-HasAudio : (db : Db) (e : ℕ) → HasAudio db → IfSome HasAudio (rehome db e)
unfolding rehome
rehome-HasAudio db e h = elim (Bool-cases (ltb 0 (count (in_flight e) db.messages))) [
  | inr z ↦ rw (IfSome, rehome, z) h
  | inl z ↦ elim (Option-cases (find_active_installation db)) [
    | inl o ↦ rw (IfSome, rehome, z, o) tt
    | inr (era, o) ↦
        rw (IfSome, rehome, z, o)
          (record {
            questions = h.questions;
            messages =
                All-update_many (λ m. HasFile db.files m.audio_id) (in_flight e) (moved_to era.id)
                  db.messages (λ m k i. k) h.messages;
            instructions = h.instructions;
          })
  ]
]

module _ (db : Db) (meanwhile : Db → Db) (delete_blob : String → Option Bool) (e : ℕ)
    (name : String) (keeps : (d : Db) → HasAudio d → HasAudio (meanwhile d)) (h : HasAudio db) where
  purge_moved-HasAudio :
      (o : Option Db) → IfSome HasAudio o → HasAudio (purge_moved db meanwhile delete_blob e o).0
  unfolding purge_moved purge_rows
  purge_moved-HasAudio none k = h
  purge_moved-HasAudio (some moved) k =
      delete_files-HasAudio (meanwhile (delete_rows moved e)) _
        (keeps (delete_rows moved e) (delete_rows-HasAudio moved e k))

  purge_existing-HasAudio :
      (o : Option Installation) → HasAudio (purge_existing db meanwhile delete_blob e name o).0
  unfolding purge_existing
  purge_existing-HasAudio none = h
  purge_existing-HasAudio (some existing) =
      either (λ (o : Db × PurgeAnswer). HasAudio o.0) (is_open existing) _ _ h
        (either (λ (o : Db × PurgeAnswer). HasAudio o.0) (not (str_eq name existing.name)) _ _ h
          (purge_moved-HasAudio (rehome db e) (rehome-HasAudio db e h)))

-- A purge takes no audio from anything that is left: where every question, message and instruction
-- has its file before it, and whatever other requests do before the files are deleted keeps that
-- true, each has it afterwards, also those that share a file with the era.
pub purge-HasAudio :
    (before db : Db) (meanwhile : Db → Db) (delete_blob : String → Option Bool) (e : ℕ)
    (name : String)
    → ((d : Db) → HasAudio d → HasAudio (meanwhile d))
    → HasAudio db
    → HasAudio (purge before db meanwhile delete_blob e name).0
unfolding purge
purge-HasAudio before db meanwhile delete_blob e name keeps h =
    purge_existing-HasAudio db meanwhile delete_blob e name keeps h (find_installation before e)
