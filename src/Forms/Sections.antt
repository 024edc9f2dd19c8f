-- ===== src/Forms/Sections.antt =====
-- Where the headers of a part end.
use web_frame.Prelude.{ℕ, ◌≡◌, refl, some, [], ◌∷◌, ◌++◌, length, arith}
use web_frame.Prelude.Bytes.{codes}
use web_frame.Prelude.Text.{Text, find_text, crlf}
use web_frame.Prelude.Search.{NoReturn}
use web_frame.Forms.Multipart.{blank_line}
use web_frame.Forms.Headers.{
  disposition_line, section_of, disposition_line-NoReturn, type_line-NoReturn,
}

find_text-blank_line :
    (line rest : Text)
    → NoReturn line
    → find_text blank_line (line ++ (blank_line ++ rest)) ≡ some (length line)
unfolding find_text
find_text-blank_line [] rest n = refl
find_text-blank_line (c ∷ line) rest (p, n) = ground (arith, find_text-blank_line line rest n)

find_text-two_lines :
    (line next : Text) (c : ℕ) (rest : Text)
    → NoReturn line
    → NoReturn (c ∷ next)
    → find_text blank_line ((line ++ (crlf ++ (c ∷ next))) ++ (blank_line ++ rest))
      ≡ some (length (line ++ (crlf ++ (c ∷ next))))
unfolding find_text
find_text-two_lines [] next c rest n m = ground (arith, m.0, find_text-blank_line (c ∷ next) rest m)
find_text-two_lines (d ∷ line) next c rest (p, n) m =
    ground (arith, find_text-two_lines line next c rest n m)

pub find_text-section_of :
    (name filename type rest : Text)
    → NoReturn name
    → NoReturn filename
    → NoReturn type
    → find_text blank_line (section_of name filename type ++ (blank_line ++ rest))
      ≡ some (length (section_of name filename type))
find_text-section_of name filename [] rest n f t =
    find_text-blank_line (disposition_line name filename) rest
      (disposition_line-NoReturn name filename n f)
find_text-section_of name filename (c ∷ type) rest n f t =
    find_text-two_lines (disposition_line name filename) (codes "ontent-Type: " ++ (c ∷ type)) b'C'
      rest (disposition_line-NoReturn name filename n f) (type_line-NoReturn (c ∷ type) t)
