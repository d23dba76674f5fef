-- ===== src/Cli/Seeds.antt =====
-- `ensureSeedFile` of internal/cli/init.go: a seed is made once.
use juno_exchange_kit.Base.{
  ℕ, ◌+◌, ◌*◌, ◌/◌, ◌%◌, ◌<◌, ◌≡◌, refl, ap, subst, inl, inr, ◌∙◌, false, Option, none, some, List,
  [], ◌∷◌, ◌++◌, arith, length, ltb, ◌==◌, if◌then◌else◌, Bool-cases, Option-cases,
}
use juno_exchange_kit.Base.Text.{
  Text, is_empty, eq_text, eq_text_refl, is_space, trim_space, trim_left, trim_right, cons_trimmed,
}
use juno_exchange_kit.Base.Table.{All}
use juno_exchange_kit.Cli.Command.{
  World, returned, exited, Cmd, or_exit, or_exit_passed, report, ◌>>=◌, ◌>>◌, io_failed,
}
use juno_exchange_kit.Cli.Config.{Host}

-- os.ReadFile; a file that cannot be read is none.
unfoldable pub read_file : Text → List (Text × Text) → Option Text
read_file path [] = none
read_file path ((p, content) ∷ files) =
    if eq_text p path then some content else read_file path files

-- os.WriteFile
unfoldable pub write_file : Host → Text → Text → Cmd (Unit {0})
write_file host path content w =
    if host.writable path
    then (returned tt, record w { files = (path, content) ∷ w.files })
    else (exited io_failed, w)

-- The character of base64 for a number below 64.
unfoldable pub base64_char : ℕ → ℕ
base64_char n =
    if ltb n 26
    then b'A' + n
    else if ltb n 52
    then b'a' + (n % 26)
    else if ltb n 62
    then b'0' + (n % 52)
    else if n == 62
    then b'+'
    else b'/'

-- base64.StdEncoding.EncodeToString, on bytes.
unfoldable pub base64_encode : List ℕ → Text
base64_encode [] = []
base64_encode (a ∷ []) = base64_char (a / 4) ∷ base64_char (a % 4 * 16) ∷ b'=' ∷ b'=' ∷ []
base64_encode (a ∷ b ∷ []) =
    base64_char (a / 4) ∷ base64_char (a % 4 * 16 + b / 16) ∷ base64_char (b % 16 * 4) ∷ b'=' ∷ []
base64_encode (a ∷ b ∷ c ∷ rest) =
    base64_char (a / 4)
    ∷ base64_char (a % 4 * 16 + b / 16)
    ∷ base64_char (b % 16 * 4 + c / 64)
    ∷ base64_char (c % 64)
    ∷ base64_encode rest

unfoldable pub stored_seed : Option Text → Option Text
stored_seed none = none
stored_seed (some content) =
    if is_empty (trim_space content) then none else some (trim_space content)

-- A new seed of 64 bytes, written with a line feed behind it.
unfoldable pub new_seed_file : Host → Text → Cmd Text
new_seed_file host path = do
  bytes ← or_exit (host.random 64) io_failed
  write_file host path (base64_encode bytes ++ 10 ∷ [])
  report (base64_encode bytes)

unfoldable pub ensure_seed_file : Host → Text → Cmd Text
ensure_seed_file host path w = elim (stored_seed (read_file path w.files)) [
  | some seed ↦ (returned seed, w)
  | none ↦ new_seed_file host path w
]

-- Characters that are no spaces.
abbrev pub IsSolid : Text → Type 0
IsSolid s = All (λ c. is_space c ≡ false) s

solid_range : (c : ℕ) → 42 < c → c < 123 → is_space c ≡ false
unfolding is_space
solid_range c lo hi = ground arith

base64_char-range : (n : ℕ) → (42 < base64_char n) × (base64_char n < 123)
unfolding base64_char
base64_char-range n = ground arith

base64_char-solid : (n : ℕ) → is_space (base64_char n) ≡ false
base64_char-solid n = solid_range (base64_char n) (base64_char-range n).0 (base64_char-range n).1

padding_solid : is_space b'=' ≡ false
padding_solid = solid_range b'=' (omega arith) (omega arith)

base64_encode-IsSolid : (bytes : List ℕ) → IsSolid (base64_encode bytes)
unfolding base64_encode
base64_encode-IsSolid [] = tt
base64_encode-IsSolid (a ∷ []) =
    (base64_char-solid _, (base64_char-solid _, (padding_solid, (padding_solid, tt))))
base64_encode-IsSolid (a ∷ b ∷ []) =
    (base64_char-solid _, (base64_char-solid _, (base64_char-solid _, (padding_solid, tt))))
base64_encode-IsSolid (a ∷ b ∷ c ∷ rest) = (
  base64_char-solid _,
  (base64_char-solid _, (base64_char-solid _, (base64_char-solid _, base64_encode-IsSolid rest))),
)

cons_trimmed-solid : (c : ℕ) (s : Text) → is_space c ≡ false → cons_trimmed c s ≡ c ∷ s
cons_trimmed-solid c [] h = rw h refl
cons_trimmed-solid c (d ∷ s) h = refl

trim_right-line : (s : Text) → IsSolid s → trim_right (s ++ 10 ∷ []) ≡ s
unfolding trim_right is_space
trim_right-line [] h = refl
trim_right-line (c ∷ s) h = ap (cons_trimmed c) (trim_right-line s h.1) ∙ cons_trimmed-solid c s h.0

pub trim_space-line : (s : Text) → IsSolid s → trim_space (s ++ 10 ∷ []) ≡ s
unfolding trim_space trim_left trim_right is_space
trim_space-line [] h = trim_right-line [] tt
trim_space-line (c ∷ s) h =
    let first : trim_left (c ∷ s ++ 10 ∷ []) ≡ c ∷ s ++ 10 ∷ [] = rw (trim_left, h.0) refl in
    ap trim_right first ∙ trim_right-line (c ∷ s) h

base64_encode-filled : (bytes : List ℕ) → 0 < length bytes → is_empty (base64_encode bytes) ≡ false
unfolding base64_encode
base64_encode-filled [] h = absurd (omega arith)
base64_encode-filled (a ∷ []) h = refl
base64_encode-filled (a ∷ b ∷ []) h = refl
base64_encode-filled (a ∷ b ∷ c ∷ rest) h = refl

-- The seed that is read back of a new file.
stored_seed-new :
    (bytes : List ℕ)
    → 0 < length bytes
    → stored_seed (some (base64_encode bytes ++ 10 ∷ [])) ≡ some (base64_encode bytes)
unfolding stored_seed
stored_seed-new bytes h =
    let line = trim_space-line (base64_encode bytes) (base64_encode-IsSolid bytes) in
    rw (line, base64_encode-filled bytes h) refl

pub read_file_written :
    (path content : Text) (files : List (Text × Text))
    → read_file path ((path, content) ∷ files) ≡ some content
unfolding read_file
read_file_written path content files = rw (eq_text_refl path) refl

new_seed_file_kept :
    (host : Host) (path seed : Text) (w w' : World)
    → ((n : ℕ) (bytes : List ℕ) → host.random n ≡ some bytes → length bytes ≡ n)
    → new_seed_file host path w ≡ (returned seed, w')
    → stored_seed (read_file path w'.files) ≡ some seed
unfolding new_seed_file write_file
new_seed_file_kept host path seed w w' sized h =
    let (bytes, drawn, h1) = or_exit_passed (host.random 64) io_failed _ w h in
    elim (Bool-cases (host.writable path)) [
      | inr e ↦ absurd (ground arith)
      | inl e ↦
          let same : base64_encode bytes ≡ seed = ground arith in
          let written : w'.files ≡ (path, base64_encode bytes ++ 10 ∷ []) ∷ w.files =
            ground arith in
          ap (λ files. stored_seed (read_file path files)) written
          ∙ ap stored_seed (read_file_written path (base64_encode bytes ++ 10 ∷ []) w.files)
          ∙ stored_seed-new bytes (omega (arith, sized 64 bytes drawn))
          ∙ ap some same
    ]

-- A seed that `ensureSeedFile` has returned stays: every later call on the path returns it again and writes
-- nothing, whatever the random source gives then. The random source fills the whole buffer.
pub ensure_seed_file_again :
    (host host' : Host) (path seed : Text) (w w' : World)
    → ((n : ℕ) (bytes : List ℕ) → host.random n ≡ some bytes → length bytes ≡ n)
    → ensure_seed_file host path w ≡ (returned seed, w')
    → ensure_seed_file host' path w' ≡ (returned seed, w')
unfolding ensure_seed_file
ensure_seed_file_again host host' path seed w w' sized h =
    elim (Option-cases (stored_seed (read_file path w.files))) [
      | inr (found, e) ↦
          let same : found ≡ seed = ground arith in
          let stays : w ≡ w' = ground arith in
          let kept : stored_seed (read_file path w'.files) ≡ some seed =
            subst (λ (v : World). stored_seed (read_file path v.files) ≡ some seed) stays
              (e ∙ ap some same) in
          rw (ensure_seed_file, kept) refl
      | inl e ↦
          let made : new_seed_file host path w ≡ (returned seed, w') = ground arith in
          let kept = new_seed_file_kept host path seed w w' sized made in
          rw (ensure_seed_file, kept) refl
    ]
