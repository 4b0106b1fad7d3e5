-- ===== src/Let/Logs.antt =====
-- The log of a container, page by page (sandboxd-let/sandbox/logs.go). A file is the list of its bytes, and
-- is read without errors once it is open. filepath.Join and the files are arguments.
pub mod Paging
use Prim.Native.String.{◌++◌ as append}
use go_gvisor_containerd_let.Base.{
  ℕ, zero, suc, ◌+◌, ◌==◌, ℤ, pos, pos_part, leb_ℤ, ltb_ℤ, String, Bool, true, false, ◌&&◌, ◌||◌,
  not, Option, none, some, List, [], ◌∷◌, str_eq, is_empty, trim_space, contains, has_prefix,
  parse_int, decimal, length, drop, if◌then◌else◌,
}
use go_gvisor_containerd_let.Let.Types.{Failure, Outcome, done, failed, fail_if}

abbrev pub Bytes : Type 0
Bytes = List ℕ

-- The offset of `NextCursor` is printed in decimal.
pub record LogsPage : Type 0 where
  pub lines : List Bytes
  pub next_cursor : String
  pub has_more : Bool

pub data LogsAnswer : Type 0 where
  page : LogsPage → LogsAnswer
  err_invalid_cursor : LogsAnswer
  failure : String → LogsAnswer

pub record LogFiles : Type 0 where
  pub state_base_dir : String
  pub join : String → String → String
  pub open_file : String → Outcome Bytes

unfoldable pub validate_path_token : String → Failure
validate_path_token v =
    fail_if (is_empty v) "empty path token"
      (fail_if (contains "/" v || (contains "\\" v || contains ".." v)) "invalid path token" none)

unfoldable pub log_path_in : String → String → Outcome String
log_path_in dir path =
    if not (str_eq path dir) && not (has_prefix (append dir "/") path)
    then failed "invalid log path"
    else done path

unfoldable pub container_log_path : LogFiles → String → String → Outcome String
unfolding validate_path_token log_path_in
container_log_path files id name = elim (validate_path_token id) [
  | some e ↦ failed "invalid sandbox id"
  | none ↦ elim (validate_path_token name) [
    | some e ↦ failed "invalid container name"
    | none ↦
        let dir = files.join (files.join files.state_base_dir id) "logs" in
        log_path_in dir (files.join dir (append name ".log"))
  ]
]

abbrev newline : ℕ
newline = 10

abbrev carriage_return : ℕ
carriage_return = 13

-- bufio's ReadString up to a newline: what was read, the newline included, what is left, and whether
-- the end came first.
pub record ReadLine : Type 0 where
  pub line : Bytes
  pub rest : Bytes
  pub eof : Bool

unfoldable pub read_string : Bytes → ReadLine
read_string [] = record { line = []; rest = []; eof = true }
read_string (b ∷ bs) =
    let r = read_string bs in
    if b == newline
    then record { line = newline ∷ []; rest = bs; eof = false }
    else record r { line = b ∷ r.line }

abbrev pub is_nil : Bytes → Bool
is_nil [] = true
is_nil (b ∷ bs) = false

cons_trimmed : ℕ → Bytes → Bytes
cons_trimmed b rest = if (b == newline || b == carriage_return) && is_nil rest then [] else b ∷ rest

-- strings.TrimRight(line, "\r\n").
unfoldable pub trim_right_eol : Bytes → Bytes
unfolding cons_trimmed
trim_right_eol [] = []
trim_right_eol (b ∷ bs) = cons_trimmed b (trim_right_eol bs)

-- `lines`, `next` and whether there is more.
pub record Read : Type 0 where
  pub lines : List Bytes
  pub next : ℕ
  pub has_more : Bool

-- The loop, for as many lines as are still wanted.
unfoldable pub read_lines : ℕ → Bytes → ℕ → Read
unfolding read_string trim_right_eol
read_lines zero rest next = record { lines = []; next = next; has_more = not (is_nil rest) }
read_lines (suc wanted) rest next =
    let r = read_string rest in
    let next' = next + length r.line in
    let further = read_lines wanted r.rest next' in
    if r.eof
    then record {
      lines = if is_nil r.line then [] else trim_right_eol r.line ∷ [];
      next = next';
      has_more = false;
    }
    else record further { lines = trim_right_eol r.line ∷ further.lines }

unfoldable pub log_limit : ℤ → ℕ
log_limit limit =
    if leb_ℤ limit (pos 0) then 100 else if ltb_ℤ (pos 1000) limit then 1000 else pos_part limit

unfoldable pub not_negative : Option ℤ → Option ℕ
not_negative none = none
not_negative (some v) = if ltb_ℤ v (pos 0) then none else some (pos_part v)

-- A blank cursor is the start of the file.
unfoldable pub log_offset : String → Option ℕ
unfolding not_negative
log_offset cursor = if is_empty (trim_space cursor) then some 0 else not_negative (parse_int cursor)

unfoldable pub page_of : Read → LogsPage
page_of r = record { lines = r.lines; next_cursor = decimal r.next; has_more = r.has_more }

-- Seek, and the loop.
unfoldable pub read_opened : ℕ → ℕ → Outcome Bytes → LogsAnswer
unfolding read_lines page_of
read_opened limit offset (failed e) = failure e
read_opened limit offset (done bytes) = page (page_of (read_lines limit (drop offset bytes) offset))

unfoldable pub read_page : LogFiles → ℕ → ℕ → Outcome String → LogsAnswer
unfolding read_opened
read_page files limit offset (failed e) = failure e
read_page files limit offset (done path) = read_opened limit offset (files.open_file path)

unfoldable pub get_container_logs : LogFiles → String → String → String → ℤ → LogsAnswer
unfolding log_limit log_offset read_page container_log_path
get_container_logs files id name cursor limit =
    if is_empty id || is_empty name
    then failure "sandbox id and container name are required"
    else elim (log_offset cursor) [
      | none ↦ err_invalid_cursor
      | some offset ↦ read_page files (log_limit limit) offset (container_log_path files id name)
    ]
