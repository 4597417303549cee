-- ===== src/Trace/Messages/Delivered.antt =====
-- The messages of src/darwintracelib1.0/darwintrace.c, as `process_line` of src/pextlib1.0/tracelib.c
-- takes them.
use mac_ports_fork.CString.{Bytes}
use mac_ports_fork.Prelude.{
  ◌>>=◌, ℕ, suc, ◌+◌, ◌≤◌, ◌<◌, ◌≡◌, refl, ap, ◌∙◌, List, [], ◌∷◌, ◌++◌, map, Option, none, some,
  Bool, true, false, ◌==◌, ◌&&◌, arith, length, length-append, append_assoc, All, All-append,
  get_or, drop, if◌then◌else◌,
}
use mac_ports_fork.Trace.Calls.{violation, exec}
use mac_ports_fork.Trace.Messages.{
  filemap_word, dep_word, Effect, recorded, Acted, send_rules, reply, command, one_line, extend,
  lines, process_line, split_tab, behind_effects, Handled,
}
use mac_ports_fork.Trace.Server.{Settings, Tracelib}
use mac_ports_fork.Trace.Server.Words.{read_word}
use mac_ports_fork.Trace.Strings.{IsText, is_text, is_text-IsText, strings_from, strings}

-- What a traced process has to say.
pub data Message : Type 0 where
  ask_rules : Message
  violates needs runs : Bytes → Message

abbrev pub text_of : Message → Bytes
text_of ask_rules = filemap_word ++ b'\t' ∷ []
text_of (violates path) = violation ++ b'\t' ∷ path
text_of (needs path) = dep_word ++ b'\t' ∷ path
text_of (runs path) = exec ++ b'\t' ∷ path

-- The bytes on the socket, each message with its terminator.
abbrev pub on_socket : List Message → Bytes
on_socket [] = []
on_socket (m ∷ ms) = text_of m ++ 0 ∷ on_socket ms

abbrev pub HasText : Message → Type 0
HasText ask_rules = Unit
HasText (violates path) = IsText path
HasText (needs path) = IsText path
HasText (runs path) = IsText path

named-IsText :
    (name path : Bytes) → is_text name ≡ true → IsText path → IsText (name ++ b'\t' ∷ path)
named-IsText name path e h =
    All-append (λ c. 0 < c) name (b'\t' ∷ path) (is_text-IsText name e) (omega arith, h)

text_of-IsText : (m : Message) → HasText m → IsText (text_of m)
text_of-IsText ask_rules h = is_text-IsText (filemap_word ++ b'\t' ∷ []) refl
text_of-IsText (violates path) h = named-IsText violation path refl h
text_of-IsText (needs path) h = named-IsText dep_word path refl h
text_of-IsText (runs path) h = named-IsText exec path refl h

string_ends :
    (d : ℕ) (ds s : Bytes) (more : List Bytes)
    → strings s ≡ some more
    → strings_from (d ∷ ds) (0 ∷ s) ≡ some ((d ∷ ds) ∷ more)
unfolding strings strings_from
string_ends d ds s more e = rw (strings_from, e) refl

-- The strings of the buffer are the messages.
strings-on_socket :
    (ms : List Message) (rest : Bytes)
    → All HasText ms
    → strings (on_socket ms ++ 0 ∷ rest) ≡ some (map text_of ms)
unfolding strings
strings-on_socket [] rest h = unfold strings_from in refl
strings-on_socket (m ∷ ms) rest h =
    ap strings (append_assoc (text_of m) (0 ∷ on_socket ms) (0 ∷ rest))
    ∙ read_word [] (text_of m) (on_socket ms ++ 0 ∷ rest) (text_of-IsText m h.0)
    ∙ ends m (strings-on_socket ms rest h.1)
  where
    tail : Bytes
    tail = on_socket ms ++ 0 ∷ rest

    texts : List Bytes
    texts = map text_of ms

    ends :
        (m : Message)
        → strings (on_socket ms ++ 0 ∷ rest) ≡ some (map text_of ms)
        → strings_from (text_of m) (0 ∷ (on_socket ms ++ 0 ∷ rest))
          ≡ some (text_of m ∷ map text_of ms)
    ends ask_rules e =
        string_ends (get_or filemap_word 0 0) (drop 1 filemap_word ++ b'\t' ∷ []) tail texts e
    ends (violates path) e =
        string_ends (get_or violation 0 0) (drop 1 violation ++ b'\t' ∷ path) tail texts e
    ends (needs path) e =
        string_ends (get_or dep_word 0 0) (drop 1 dep_word ++ b'\t' ∷ path) tail texts e
    ends (runs path) e = string_ends (get_or exec 0 0) (drop 1 exec ++ b'\t' ∷ path) tail texts e

module _ (settings : Settings) (file_registered : Bytes → Bytes) where
  -- What the server means to do about a message.
  abbrev pub act : Message → Tracelib → Acted
  act ask_rules tl = send_rules settings file_registered tl
  act (violates path) tl = some (tl, recorded path ∷ [])
  act (needs path) tl = reply settings file_registered path tl
  act (runs path) tl = some (tl, [])

  abbrev pub act_all : List Message → Tracelib → Acted
  act_all [] tl = some (tl, [])
  act_all (m ∷ ms) tl = do
    (tl', effects) ← act m tl
    (tl'', more) ← act_all ms tl'
    some (tl'', effects ++ more)

  one_line-act :
      (m : Message) (tl : Tracelib)
      → one_line settings file_registered (text_of m) tl
        ≡ act m tl >>= λ (tl', effects). some (true, tl', effects)
  unfolding one_line split_tab command
  one_line-act ask_rules tl = refl
  one_line-act (violates path) tl = refl
  one_line-act (needs path) tl = refl
  one_line-act (runs path) tl = refl

  neither : (b c : Bool) → c ≡ false → (b && c) ≡ false
  neither true c e = e
  neither false c e = refl

  abbrev with_more : Bytes → Acted → Handled settings file_registered
  with_more more none = none
  with_more more (some (tl, effects)) = some (tl, effects, more)

  -- A chain of a first message and the others, on either side.
  chain :
      (o : Acted) (next : Tracelib → Handled settings file_registered) (rest : Tracelib → Acted)
      (more : Bytes) (halt : Tracelib → Handled settings file_registered)
      → ((tl : Tracelib) → next tl ≡ with_more more (rest tl))
      → ((o >>= λ (tl', effects). some (true, tl', effects)) >>= λ (goes_on, tl', effects).
          behind_effects settings file_registered effects (if goes_on then next tl' else halt tl'))
        ≡ with_more more
            (o >>= λ (tl', effects). rest tl' >>= λ (tl'', others). some (tl'', effects ++ others))
  chain none next rest more halt h = refl
  chain (some (tl', effects)) next rest more halt h =
      ap (behind_effects settings file_registered effects) (h tl') ∙ last (rest tl')
    where
      last :
          (r : Acted)
          → behind_effects settings file_registered effects (with_more more r)
            ≡ with_more more (r >>= λ (tl'', others). some (tl'', effects ++ others))
      last none = refl
      last (some (tl'', others)) = refl

  lines-act_all :
      (full : Bool) (offset : ℕ) (ms : List Message) (more : Bytes) (tl : Tracelib)
      → offset + length (on_socket ms) ≤ 1023
      → lines settings file_registered full offset (map text_of ms) more tl
        ≡ with_more more (act_all ms tl)
  unfolding lines extend
  lines-act_all full offset [] more tl h = refl
  lines-act_all full offset (m ∷ ms) more tl h =
      let next = offset + suc (length (text_of m)) in
      let long = length-append (text_of m) (0 ∷ on_socket ms) in
      let within : (next == 1024) ≡ false = ground (arith, h, long) in
      let short : (full && (next == 1024)) ≡ false = neither full (next == 1024) within in
      rw (lines, short, extend, one_line-act m tl)
        (chain (act m tl) (lines settings file_registered full next (map text_of ms) more)
          (act_all ms) more (λ tl'. some (tl', [], more))
          (λ tl'. lines-act_all full next ms more tl' (omega (arith, h, long))))

-- The connection is kept, and what waits behind the messages is left there.
abbrev pub kept_open : Bytes → Acted → Option (Bool × Tracelib × List Effect × Bytes)
kept_open more none = none
kept_open more (some (tl, effects)) = some (true, tl, effects, more)

process_some :
    (settings : Settings) (file_registered : Bytes → Bytes) (s more : Bytes) (tl : Tracelib)
    → 0 < length s
    → process_line settings file_registered (some s) more tl
      ≡ strings (s ++ 0 ∷ 0 ∷ []) >>= λ texts.
          lines settings file_registered (length s == 1023) 0 texts more tl
          >>= λ (tl', effects, more'). some (true, tl', effects, more')
unfolding process_line
process_some settings file_registered [] more tl h = absurd (omega arith)
process_some settings file_registered (c ∷ s) more tl h = refl

-- Messages of a traced process that come together, in at most 1023 bytes, are each acted on, in their
-- order, as the server means to, whatever its state and whatever waits behind them; the connection
-- is kept.
pub process_line-act_all :
    (settings : Settings) (file_registered : Bytes → Bytes) (m : Message) (ms : List Message)
    (more : Bytes) (tl : Tracelib)
    → All HasText (m ∷ ms)
    → length (on_socket (m ∷ ms)) ≤ 1023
    → process_line settings file_registered (some (on_socket (m ∷ ms))) more tl
      ≡ kept_open more (act_all settings file_registered (m ∷ ms) tl)
process_line-act_all settings file_registered m ms more tl h l =
    let block = on_socket (m ∷ ms) in
    let full = length block == 1023 in
    let some_bytes : 0 < length block =
      omega (arith, length-append (text_of m) (0 ∷ on_socket ms)) in
    process_some settings file_registered block more tl some_bytes
    ∙ rw
        (
          strings-on_socket (m ∷ ms) (0 ∷ []) h,
          lines-act_all settings file_registered full 0 (m ∷ ms) more tl (omega (arith, l)),
        )
        (both_ways (act_all settings file_registered (m ∷ ms) tl))
  where
    both_ways :
        (o : Acted)
        → ◌>>=◌ {B = Bool × Tracelib × List Effect × Bytes}
            (with_more settings file_registered more o)
            (λ (tl', effects, more'). some (true, tl', effects, more'))
          ≡ kept_open more o
    both_ways none = refl
    both_ways (some (tl', effects)) = refl
