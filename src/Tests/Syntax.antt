-- ===== src/Tests/Syntax.antt =====
-- crates/h11r/src/wire at concrete bytes.
use h11r.Prelude.{
  ◌-◌, ◌≡◌, refl, arith, true, false, not, ◌&&◌, some, [], ◌++◌, codes, length, take, drop, ltb,
  if◌then◌else◌, ok, err,
}
use h11r.Headers
use h11r.Headers.{Headers, push, get_all}
use h11r.Wire.Syntax.{eq_ignore_ascii_case}
use h11r.Wire.Elements.{elements}
use h11r.Wire.Buffer
use h11r.Wire.Buffer.{Buffer, Framing, fixed, close_delimited, as_slice, consume, take_front}
use h11r.Wire.Buffer.Queue.{IsWellFormed, queue_refined}
use h11r.Wire.Section.{SectionProgress, fresh, poll, find_crlf}
use h11r.Wire.Section.Resume.{poll-resume}
use h11r.Wire.Section.Lines.{section_end, poll-section_end}
use h11r.Wire.Section.Crlf.{find_crlf-resume}
use h11r.Wire.Number.{parse_number}
use h11r.Wire.Codings.{no_codings, read_loop}
use h11r.Wire.Codings.Ends.{read_returns}
use h11r.Wire.Errors.{remote}
use h11r.Wire.Fields
use h11r.Wire.Fields.{http11, scan, has_framing}
use h11r.Wire.Fields.Presence.{te_name, cl_name, scan-has_framing}
use h11r.Wire.Fields.Rules.{framing_both, AllParse, framing_fixed, framing_undeclared}
use h11r.Wire.Lists.{has_field, has_framing_fields, all_elements}
use h11r.Wire.Chunked.{read_extensions}
use h11r.Wire.Chunked.Header.{read_extensions_end}
use h11r.Wire.Head.{crlf}

abbrev buffer : Buffer
buffer = record { bytes = codes "abcd"; start = 1 }

queue_refined_example :
    (as_slice (Buffer.extend buffer (codes "e")) ≡ as_slice buffer ++ codes "e")
    × (as_slice (consume buffer 2) ≡ drop 2 (as_slice buffer))
    × (take_front buffer 2 ≡ (consume buffer 2, take 2 (as_slice buffer)))
    × IsWellFormed (Buffer.extend buffer (codes "e"))
    × IsWellFormed (consume buffer 2)
unfolding as_slice
queue_refined_example = queue_refined buffer (codes "e") 2 (omega arith) (omega arith)

abbrev searched : SectionProgress
searched = (poll fresh (codes "a: b") false).0

poll-resume_example :
    poll searched (codes "a: b" ++ crlf) false ≡ poll fresh (codes "a: b" ++ crlf) false
unfolding poll fresh
poll-resume_example =
    poll-resume fresh searched (codes "a: b") crlf false (omega arith, omega arith) refl

poll-section_end_example :
    (poll fresh (crlf ++ crlf) false).1 ≡ section_end [] false false 0 (crlf ++ crlf)
poll-section_end_example = poll-section_end (crlf ++ crlf) false

find_crlf-resume_example :
    find_crlf (codes "1f" ++ crlf) (length (codes "1f") - 1) ≡ find_crlf (codes "1f" ++ crlf) 0
unfolding find_crlf
find_crlf-resume_example = find_crlf-resume (codes "1f") crlf refl

read_returns_example : (read_loop no_codings (codes "gzip, chunked")).returned ≡ true
read_returns_example = read_returns no_codings (codes "gzip, chunked")

abbrev sized : Headers
sized = push Headers.new (codes "Content-Length") (codes "5")

abbrev ambiguous : Headers
ambiguous = push sized (codes "Transfer-Encoding") (codes "chunked")

scan-has_framing_example : has_framing (scan sized) ≡ has_framing_fields sized
scan-has_framing_example = scan-has_framing sized

framing_both_example :
    Fields.framing (scan ambiguous) http11 false
    ≡ err (remote "Transfer-Encoding and Content-Length cannot be combined" (some 400))
unfolding has_field Headers.new push get_all eq_ignore_ascii_case
framing_both_example = framing_both ambiguous http11 false refl refl

framing_fixed_example :
    (has_field sized te_name ≡ false) × AllParse 5 (all_elements (get_all sized cl_name))
unfolding has_field Headers.new push scan Fields.framing get_all eq_ignore_ascii_case elements
    Fields.join_length parse_number
framing_fixed_example = framing_fixed sized http11 false 5 refl refl

framing_undeclared_example :
    Fields.framing (scan Headers.new) http11 true ≡ ok (if true then close_delimited else fixed 0)
unfolding has_field Headers.new get_all
framing_undeclared_example = framing_undeclared Headers.new http11 true refl refl

read_extensions_end_example :
    (not (read_extensions (codes "5;a=b") 1).failed
      && ltb (read_extensions (codes "5;a=b") 1).at (length (codes "5;a=b")))
    ≡ false
read_extensions_end_example = read_extensions_end (codes "5;a=b") 1
