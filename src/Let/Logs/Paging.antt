-- ===== src/Let/Logs/Paging.antt =====
-- Following the cursors reads a log to its end.
use go_gvisor_containerd_let.Base.{
  ℕ, zero, suc, ◌+◌, ◌-◌, ◌<◌, ◌≤◌, ◌==◌, ◌^◌, ℤ, ◌≡◌, refl, ap, ◌∙◌, sym, String, true, false, not,
  Option, none, some, List, [], ◌∷◌, ◌++◌, map, nil-++, ◌||◌, arith, length, drop, drop-drop,
  length-drop, is_empty, trim_space, decimal, if◌then◌else◌, Bool-cases, inl, inr,
}
use go_gvisor_containerd_let.Base.Decimal.{parse_int-decimal, trim_space-decimal}
use go_gvisor_containerd_let.Let.Types.{done}
use go_gvisor_containerd_let.Let.Logs.{
  Bytes, LogsAnswer, page, err_invalid_cursor, failure, LogFiles, ReadLine, read_string, is_nil,
  trim_right_eol, Read, read_lines, log_limit, log_offset, page_of, read_page, read_opened,
  container_log_path, get_container_logs, validate_path_token, not_negative, newline,
}

-- The line that some bytes begin with, its newline included, and the lines behind it.
abbrev pub split_lines : Bytes → Bytes × List Bytes
split_lines [] = ([], [])
split_lines (b ∷ bs) =
    let (first, others) = split_lines bs in
    if b == newline
    then (newline ∷ [], if is_nil first then others else first ∷ others)
    else (b ∷ first, others)

abbrev pub some_lines : Bytes × List Bytes → List Bytes
some_lines (first, others) = if is_nil first then others else first ∷ others

-- The lines of a file, without their ends.
abbrev pub all_lines : Bytes → List Bytes
all_lines bytes = map trim_right_eol (some_lines (split_lines bytes))

-- A read takes the first line off; at the end of the file nothing is left.
read_string-split :
    (bs : Bytes)
    → split_lines bs ≡ ((read_string bs).line, some_lines (split_lines (read_string bs).rest))
unfolding read_string
read_string-split [] = refl
read_string-split (b ∷ bs) = elim (Bool-cases (b == newline)) [
  | inl e ↦ rw e refl
  | inr e ↦ rw (e, read_string-split bs) refl
]

read_string-drop : (bs : Bytes) → drop (length (read_string bs).line) bs ≡ (read_string bs).rest
unfolding read_string
read_string-drop [] = refl
read_string-drop (b ∷ bs) = elim (Bool-cases (b == newline)) [
  | inl e ↦ rw e refl
  | inr e ↦ rw (e, read_string-drop bs) refl
]

read_string-eof : (bs : Bytes) → (read_string bs).eof ≡ true → (read_string bs).rest ≡ []
unfolding read_string
read_string-eof [] h = refl
read_string-eof (b ∷ bs) h = ground (arith, read_string-eof bs)

-- A read before the end takes something.
read_string-takes :
    (bs : Bytes)
    → (read_string bs).eof ≡ false
    → (is_nil (read_string bs).line ≡ false) × (0 < length (read_string bs).line)
unfolding read_string
read_string-takes [] h = cc
read_string-takes (b ∷ bs) h = ground arith

read_string-fits : (bs : Bytes) → length (read_string bs).line ≤ length bs
unfolding read_string
read_string-fits [] = omega arith
read_string-fits (b ∷ bs) = ground (arith, read_string-fits bs)

-- What the loop has read, from the offset `next` on: the lines are those of the file up to the new
-- offset; at the end there are no others; and before it, the offset has grown within the file.
pub record IsReadOf (rest : Bytes) (wanted next : ℕ) (r : Read) : Type 0 where
  pub consumed : ℕ
  pub offset : r.next ≡ next + consumed
  pub fits : consumed ≤ length rest
  pub lines : all_lines rest ≡ r.lines ++ all_lines (drop consumed rest)
  pub ended : r.has_more ≡ false → drop consumed rest ≡ []
  pub grown : r.has_more ≡ true → 0 < wanted → 0 < consumed

all_lines-first :
    (bs : Bytes)
    → all_lines bs ≡ (
        if is_nil (read_string bs).line
        then all_lines (read_string bs).rest
        else trim_right_eol (read_string bs).line ∷ all_lines (read_string bs).rest)
all_lines-first bs =
    ap (λ p. map trim_right_eol (some_lines p)) (read_string-split bs)
    ∙ elim (Bool-cases (is_nil (read_string bs).line)) [ inl e ↦ rw e refl | inr e ↦ rw e refl ]

nothing_left : (bs : Bytes) → not (is_nil bs) ≡ false → bs ≡ []
nothing_left [] h = refl
nothing_left (b ∷ bs) h = cc

module _ (rest : Bytes) (next : ℕ) where
  abbrev first : ReadLine
  first = read_string rest

  last_read :
      (wanted : ℕ)
      → first.eof ≡ true
      → IsReadOf rest (suc wanted) next (record {
        lines = if is_nil first.line then [] else trim_right_eol first.line ∷ [];
        next = next + length first.line;
        has_more = false;
      })
  last_read wanted e =
      let left : drop (length first.line) rest ≡ [] =
        read_string-drop rest ∙ read_string-eof rest e in
      record {
        consumed = length first.line;
        offset = refl;
        fits = read_string-fits rest;
        lines =
            all_lines-first rest
            ∙ rw (left, read_string-eof rest e)
                (elim (Bool-cases (is_nil first.line)) [ inl f ↦ rw f refl | inr f ↦ rw f refl ]);
        ended = λ _. left;
        grown = λ m. cc;
      }

  further_read :
      (wanted : ℕ) (r : Read)
      → first.eof ≡ false
      → IsReadOf first.rest wanted (next + length first.line) r
      → IsReadOf rest (suc wanted) next (record r { lines = trim_right_eol first.line ∷ r.lines })
  further_read wanted r e h =
      let (filled, positive) = read_string-takes rest e in
      let shorter : length first.rest ≡ length rest - length first.line =
        ap length (sym (read_string-drop rest)) ∙ length-drop (length first.line) rest in
      let left : drop (length first.line + h.consumed) rest ≡ drop h.consumed first.rest =
        sym (drop-drop h.consumed (length first.line) rest)
        ∙ ap (drop h.consumed) (read_string-drop rest) in
      record {
        consumed = length first.line + h.consumed;
        offset = omega (arith, h.offset);
        fits = omega (arith, h.fits, read_string-fits rest);
        lines =
            all_lines-first rest
            ∙ rw (filled, left) (ap (λ ls. trim_right_eol first.line ∷ ls) h.lines);
        ended = λ m. left ∙ h.ended m;
        grown = λ m w. omega arith;
      }

read_lines-IsReadOf :
    (wanted : ℕ) (rest : Bytes) (next : ℕ) → IsReadOf rest wanted next (read_lines wanted rest next)
unfolding read_lines
read_lines-IsReadOf zero rest next = record {
  consumed = 0;
  offset = omega arith;
  fits = omega arith;
  lines = refl;
  ended = nothing_left rest;
  grown = λ m w. elim w [ ];
}
read_lines-IsReadOf (suc wanted) rest next = elim (Bool-cases (read_string rest).eof) [
  | inl e ↦ rw e (last_read rest next wanted e)
  | inr e ↦ rw e (
      further_read rest next wanted _ e (
        read_lines-IsReadOf wanted (read_string rest).rest (next + length (read_string rest).line)))
]

-- A client that follows the cursors while there is more, for so many pages at most.
abbrev and_then : List Bytes → Option (List Bytes) → Option (List Bytes)
and_then ls none = none
and_then ls (some rest) = some (ls ++ rest)

abbrev after_page : (String → Option (List Bytes)) → LogsAnswer → Option (List Bytes)
after_page next (page p) =
    if p.has_more then and_then p.lines (next p.next_cursor) else some p.lines
after_page next err_invalid_cursor = none
after_page next (failure e) = none

pub follow : LogFiles → String → String → ℤ → ℕ → String → Option (List Bytes)
follow files id name limit zero cursor = none
follow files id name limit (suc pages) cursor =
    after_page (follow files id name limit pages) (get_container_logs files id name cursor limit)

log_limit_pos : (limit : ℤ) → 0 < log_limit limit
unfolding log_limit
log_limit_pos limit = ground arith

log_offset-decimal : (n : ℕ) → n < 2 ^ 63 → log_offset (decimal n) ≡ some n
unfolding log_offset not_negative
log_offset-decimal n h = rw (trim_space-decimal n, parse_int-decimal n h) (ground arith)

named_path :
    (files : LogFiles) (id name path : String)
    → container_log_path files id name ≡ done path
    → (is_empty id || is_empty name) ≡ false
unfolding container_log_path validate_path_token
named_path files id name path h = ground arith

module _ (files : LogFiles) (id name path : String) (limit : ℤ) (bytes : Bytes)
    (located : container_log_path files id name ≡ done path)
    (opened : files.open_file path ≡ done bytes) (bounded : length bytes < 2 ^ 63) where
  -- The page at an offset.
  page_at :
      (cursor : String) (offset : ℕ)
      → log_offset cursor ≡ some offset
      → get_container_logs files id name cursor limit
        ≡ page (page_of (read_lines (log_limit limit) (drop offset bytes) offset))
  unfolding get_container_logs read_page read_opened
  page_at cursor offset h = rw (named_path files id name path located, h, located, opened) refl

  follow_from :
      (pages : ℕ) (cursor : String) (offset : ℕ)
      → log_offset cursor ≡ some offset
      → offset ≤ length bytes
      → length bytes - offset < pages
      → follow files id name limit pages cursor ≡ some (all_lines (drop offset bytes))
  unfolding follow page_of
  follow_from zero cursor offset h le lt = elim lt [ ]
  follow_from (suc pages) cursor offset h le lt =
      let r = read_lines (log_limit limit) (drop offset bytes) offset in
      let h' = read_lines-IsReadOf (log_limit limit) (drop offset bytes) offset in
      let within : length (drop offset bytes) ≡ length bytes - offset = length-drop offset bytes in
      let some_line = log_limit_pos limit in
      rw (page_at cursor offset h) (elim (Bool-cases r.has_more) [
        | inl more ↦
            let grown = h'.grown more some_line in
            let rest =
              follow_from pages (decimal r.next) r.next
                (log_offset-decimal r.next (omega (arith, h'.offset, h'.fits)))
                (omega (arith, h'.offset, h'.fits)) (omega (arith, h'.offset, h'.fits)) in
            let behind : drop h'.consumed (drop offset bytes) ≡ drop r.next bytes =
              drop-drop h'.consumed offset bytes ∙ ap (λ n. drop n bytes) (sym h'.offset) in
            rw (more, rest) (ap some (sym (h'.lines ∙ ap (λ b. r.lines ++ all_lines b) behind)))
        | inr last ↦ rw last (
            ap some
              (sym (h'.lines ∙ ap (λ b. r.lines ++ all_lines b) (h'.ended last) ∙ nil-++ r.lines)))
      ])

  start : log_offset "" ≡ some 0
  unfolding log_offset trim_space
  start = refl

  -- Where the log's path is accepted, its file can be opened, and is shorter than 2 ^ 63 bytes, a client
  -- that starts without a cursor and follows the cursors while there is more comes to an end within
  -- one page more than the file has bytes, whatever its limit, and has then read each line of the file
  -- once and in order.
  pub follow-all_lines :
      (pages : ℕ)
      → length bytes < pages
      → follow files id name limit pages "" ≡ some (all_lines bytes)
  follow-all_lines pages h = follow_from pages "" 0 start (omega arith) (omega arith)
