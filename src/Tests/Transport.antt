-- ===== src/Tests/Transport.antt =====
-- python/value_transport.py and python/append_value_transport.py on a value of two bytes.
use mathlib.Core.Option.{some}
use bit_net.Transport.{default_limits}
use bit_net.Transport.Cursor
use bit_net.Transport.Cursor.{done}
use bit_net.Transport.Cursor.Laws.{Ready, Steps, Ready-Steps}
use bit_net.Transport.Cursor.Committed.{CommittedPart, committed_text-CommittedPart}
use bit_net.Transport.Compile.{compile_value, compile_append_value}
use bit_net.Transport.Compile.Laws.{Serves, compile_value-Serves, compile_append_value-Serves}
use bit_net.Teacher.Drive.{drive, driven_from, drive-finishes}
use bit_net.Tests.Codec.{codec, digest, handle, snapshot, reply, prefix_ids, prefix_text, cursor}
use bit_net.Base.{
  ℕ, zero, suc, ◌+◌, ◌-◌, ◌*◌, ◌/◌, ◌%◌, ◌≤◌, ◌<◌, min, String, ◌≡◌, refl, sym, ap, ◌∙◌, ◌≢◌, ◌↔◌,
  ◌⊎◌, inl, inr, Bool, true, false, not, ◌&&◌, ◌||◌, Option, none, some, List, [], ◌∷◌, ◌++◌, map,
  arith, ltb, leb, if◌then◌else◌, Bool-cases, Option-cases, Eq, ◌==◌, eq_iff, nat_eq, text_eq,
  texts_eq, option_eq, length, get_elem?, take, drop, all, any, is_empty, length-append, append_nil,
  append_assoc, take-append-drop, length-take, take-length, take-suc, take-append, drop-append, All,
  Some, all_iff, all-append, elem, distinct, subset, disjoint, elem-append, Error, value_error,
  transport_error, prefix_retokenization_required, unsafe_token, transport_budget_exceeded,
  unicode_encode_error, unicode_decode_error, Result, ok, err, Check, ◌>>=◌, ◌>>◌, guard, or_raise,
  drop_value, each, each_iff, Text, Bytes, lit, has_content, is_sha256, Result-cases, guard-eq-ok,
  check-eq-ok, bind-eq-ok, or_raise-eq-ok, drop_value-eq-ok, bool_ext,
}

appended :
    compile_append_value digest default_limits codec handle snapshot reply prefix_ids prefix_text
      false
    ≡ ok (some cursor)
unfolding compile_append_value bit_net.Transport.Handle.validate
    bit_net.Transport.Handle.select_bytes bit_net.Base.Utf8.decode
    bit_net.Transport.Compile.append_selected bit_net.Transport.Compile.token_ids
    bit_net.Base.Utf8.encode bit_net.Base.Utf8.encode_all bit_net.Base.Utf8.encode_char
    bit_net.Transport.Compile.encode_value bit_net.Transport.text_bytes
    bit_net.Transport.Compile.accept_suffix bit_net.Transport.Compile.refuse_control
    Cursor.post_init
appended = refl

compiled :
    compile_value digest default_limits codec handle snapshot reply prefix_ids prefix_text false
    ≡ ok (some cursor)
unfolding compile_value bit_net.Transport.Handle.validate bit_net.Transport.Handle.select_bytes
    bit_net.Base.Utf8.decode bit_net.Transport.Compile.compile_selected
    bit_net.Transport.Compile.token_ids bit_net.Base.Utf8.encode bit_net.Base.Utf8.encode_all
    bit_net.Base.Utf8.encode_char bit_net.Transport.text_bytes
    bit_net.Transport.Compile.accept_suffix bit_net.Transport.Compile.refuse_control
    Cursor.post_init
compiled = refl

compile_append_value-Serves_example :
    Serves digest default_limits codec handle snapshot reply prefix_ids prefix_text false cursor
compile_append_value-Serves_example =
    compile_append_value-Serves digest default_limits codec handle snapshot reply prefix_ids
      prefix_text false appended

compile_value-Serves_example :
    Serves digest default_limits codec handle snapshot reply prefix_ids prefix_text false cursor
compile_value-Serves_example =
    compile_value-Serves digest default_limits codec handle snapshot reply prefix_ids prefix_text
      false compiled

cursor-Ready : Ready digest cursor snapshot reply prefix_ids false
cursor-Ready =
    (compile_append_value-Serves digest default_limits codec handle snapshot reply prefix_ids
      prefix_text false appended).ready

is_unfinished : done cursor ≡ false
unfolding done
is_unfinished = refl

Ready-Steps_example : Steps digest cursor snapshot reply prefix_ids false
Ready-Steps_example =
    Ready-Steps digest cursor snapshot reply prefix_ids false cursor-Ready is_unfinished

-- One byte of two is committed: no character is.
abbrev halfway : Cursor.ValueCursor
halfway = record cursor { offset = 1 }

halfway-accepted : Cursor.post_init halfway ≡ ok tt
unfolding Cursor.post_init bit_net.Transport.text_bytes bit_net.Base.Utf8.decode
halfway-accepted = refl

halfway-text : bit_net.Transport.text_bytes halfway.value ≡ ok (233 ∷ [])
unfolding bit_net.Transport.text_bytes bit_net.Base.Utf8.decode
halfway-text = refl

committed_text-CommittedPart_example : CommittedPart halfway (233 ∷ [])
committed_text-CommittedPart_example =
    committed_text-CommittedPart halfway halfway-accepted halfway-text

-- With an oracle allowed too: what the loop of the teacher asks.
appended_for_teacher :
    compile_append_value digest default_limits codec handle snapshot reply prefix_ids prefix_text
      true
    ≡ ok (some cursor)
unfolding compile_append_value bit_net.Transport.Handle.validate
    bit_net.Transport.Handle.select_bytes bit_net.Base.Utf8.decode
    bit_net.Transport.Compile.append_selected bit_net.Transport.Compile.token_ids
    bit_net.Base.Utf8.encode bit_net.Base.Utf8.encode_all bit_net.Base.Utf8.encode_char
    bit_net.Transport.Compile.encode_value bit_net.Transport.text_bytes
    bit_net.Transport.Compile.accept_suffix bit_net.Transport.Compile.refuse_control
    Cursor.post_init
appended_for_teacher = refl

drive-finishes_example :
    drive digest 1 snapshot reply 3 cursor prefix_ids true ≡ some (ok (driven_from cursor true))
drive-finishes_example =
    drive-finishes digest 1 snapshot reply 3 cursor prefix_ids true
      (compile_append_value-Serves digest default_limits codec handle snapshot reply prefix_ids
        prefix_text true appended_for_teacher).ready
      (omega arith)
