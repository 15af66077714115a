-- ===== src/Frontend/Events.antt =====
-- Server sent events: writeSSE of frontend/handler.go, and drain of frontend/drain.go.
use oida.Prelude.{
  ◌==◌, if◌then◌else◌, Bool-cases, All, Text, bytes, text_eq, has_prefix, lead, split, join,
  has_byte, join-split, ℕ, ◌≡◌, refl, sym, ap, subst, inl, inr, false, Option, none, some, List, [],
  ◌∷◌, ◌++◌, arith,
}
use mathlib.Core.List.{append_assoc}
use oida.Frontend.Requests.{cut_prefix}

-- One line of the payload as writeSSE writes it.
abbrev data_line : Text → Text
data_line line = bytes "data: " ++ (line ++ bytes "\n")

write_lines : List Text → Text
write_lines [] = bytes "\n"
write_lines (l ∷ ls) = data_line l ++ write_lines ls

-- What writeSSE writes when no write fails.
unfoldable pub write_sse : Text → Text
unfolding write_lines split
write_sse payload = write_lines (split b'\n' payload)

-- How a browser reads a stream: a line ends at LF, at CR or at both, and an event at an empty line.
abbrev carry : ℕ → List Text → List Text
carry c [] = []
carry c (l ∷ ls) = (c ∷ l) ∷ ls

read_lines : Text → List Text
read_lines [] = [] ∷ []
read_lines (c ∷ s) =
    let rest = read_lines s in
    if c == b'\n'
    then [] ∷ rest
    else if c == b'\r'
    then (elim s [ [] ↦ [] ∷ rest | d ∷ t ↦ if d == b'\n' then rest else [] ∷ rest ])
    else carry c rest

read_data : List Text → Option (List Text)
unfolding text_eq cut_prefix
read_data [] = none
read_data (l ∷ ls) =
    let rest = read_data ls in
    if text_eq l [] then some [] else elim (cut_prefix (bytes "data: ") l) [
      | none ↦ rest
      | some line ↦ elim rest [ none ↦ none | some more ↦ some (line ∷ more) ]
    ]

-- The data of the first event, if the stream holds a whole one.
unfoldable pub read_event : Text → Option Text
unfolding read_data read_lines join
read_event s = elim (read_data (read_lines s)) [ none ↦ none | some ls ↦ some (join b'\n' ls) ]

abbrev IsLine : Text → Type 0
IsLine l = (has_byte b'\n' l ≡ false) × (has_byte b'\r' l ≡ false)

read_lines-line : (l s : Text) → IsLine l → read_lines (l ++ (b'\n' ∷ s)) ≡ l ∷ read_lines s
unfolding read_lines has_byte
read_lines-line [] s h = refl
read_lines-line (c ∷ l) s (n, r) =
    let here : has_byte b'\n' l ≡ false = ground arith in
    let back : has_byte b'\r' l ≡ false = ground arith in
    let ih = read_lines-line l s (here, back) in ground arith

lead-IsLine :
    (c : ℕ) (ls : List Text)
    → (c == b'\n') ≡ false
    → (c == b'\r') ≡ false
    → All IsLine ls
    → All IsLine (lead c ls)
unfolding has_byte
lead-IsLine c [] n r h = ((ground arith, ground arith), tt)
lead-IsLine c (l ∷ ls) n r ((p, q), h) = ((rw (n, p) refl, rw (r, q) refl), h)

split-IsLine : (s : Text) → has_byte b'\r' s ≡ false → All IsLine (split b'\n' s)
unfolding split has_byte
split-IsLine [] h = ((refl, refl), tt)
split-IsLine (c ∷ s) h = elim (Bool-cases (c == b'\n')) [
  | inl y ↦ rw y ((refl, refl), split-IsLine s (ground arith))
  | inr n ↦ rw n (lead-IsLine c (split b'\n' s) n (ground arith) (split-IsLine s (ground arith)))
]

data_line-front : (l s : Text) → data_line l ++ s ≡ (bytes "data: " ++ l) ++ (b'\n' ∷ s)
data_line-front l s = append_assoc (bytes "data: " ++ l) (bytes "\n") s

data-IsLine : (l : Text) → IsLine l → IsLine (bytes "data: " ++ l)
unfolding has_byte
data-IsLine l h = h

read_data-lines :
    (ls : List Text) → All IsLine ls → read_data (read_lines (write_lines ls)) ≡ some ls
unfolding read_data read_lines write_lines text_eq cut_prefix has_prefix
read_data-lines [] h = refl
read_data-lines (l ∷ ls) (h, hs) =
    subst (λ t. read_data (read_lines t) ≡ some (l ∷ ls)) (sym (data_line-front l (write_lines ls)))
      (rw (read_lines-line (bytes "data: " ++ l) (write_lines ls) (data-IsLine l h))
        (rw (read_data-lines ls hs) refl))

-- A reader of event streams gets the payload back from what writeSSE writes, whatever its lines,
-- where it holds no carriage return.
pub read_event-write_sse :
    (payload : Text)
    → has_byte b'\r' payload ≡ false
    → read_event (write_sse payload) ≡ some payload
unfolding read_event write_sse
read_event-write_sse payload h =
    subst
      (λ o.
        (elim o as (λ x. Option Text) [ none ↦ none | some ls ↦ some (join b'\n' ls) ])
        ≡ some payload)
      (sym (read_data-lines (split b'\n' payload) (split-IsLine payload h)))
      (ap some (join-split b'\n' payload))
