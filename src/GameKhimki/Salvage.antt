-- ===== src/GameKhimki/Salvage.antt =====
-- internal/gamekhimki/llm.go: what is recovered from a reply that is not quite JSON. 34 is the quote,
-- 92 the backslash, and 10, 13 and 9 are the line feed, the carriage return and the tab.
pub mod Escaping
pub mod Strays
use psycho_space.Prelude.{
  ℕ, ◌+◌, Text, eq_text, lt_text, has_text, trim_space, Bool, true, false, ◌&&◌, not, List, [], ◌∷◌,
  ◌++◌, Option, none, some, ◌==◌, leb, ltb, if◌then◌else◌, length, keep, order_by,
}
use psycho_space.GameKhimki.Defs.{JudgeReply, option_count}

abbrev pub Mode : Type 0
Mode = Bool × Bool

-- One byte of `escapeControlCharsInStrings`, in or out of a string and after a backslash or not: what
-- is written, and the mode after it.
unfoldable pub escape_byte : Mode → ℕ → Text × Mode
escape_byte (in_string, true) c = (c ∷ [], (in_string, false))
escape_byte (in_string, false) c =
    if in_string && c == 92
    then (c ∷ [], (in_string, true))
    else if c == 34
    then (c ∷ [], (not in_string, false))
    else if in_string && c == 10
    then (92 ∷ 110 ∷ [], (in_string, false))
    else if in_string && c == 13
    then (92 ∷ 114 ∷ [], (in_string, false))
    else if in_string && c == 9
    then (92 ∷ 116 ∷ [], (in_string, false))
    else (c ∷ [], (in_string, false))

unfoldable pub escape_from : Mode → Text → Text
unfolding escape_byte
escape_from mode [] = []
escape_from mode (c ∷ cs) =
    (escape_byte mode c).0 ++ escape_from ((escape_byte mode c).1.0, (escape_byte mode c).1.1) cs

-- `escapeControlCharsInStrings`
unfoldable pub escape_control : Text → Text
unfolding escape_from
escape_control s = escape_from (false, false) s

-- `judgeReplyKeys`: reply, art, achieved, game_over, anger, options.
abbrev pub judge_reply_keys : List Text
judge_reply_keys =
    (114 ∷ 101 ∷ 112 ∷ 108 ∷ 121 ∷ [])
    ∷ (97 ∷ 114 ∷ 116 ∷ [])
    ∷ (97 ∷ 99 ∷ 104 ∷ 105 ∷ 101 ∷ 118 ∷ 101 ∷ 100 ∷ [])
    ∷ (103 ∷ 97 ∷ 109 ∷ 101 ∷ 95 ∷ 111 ∷ 118 ∷ 101 ∷ 114 ∷ [])
    ∷ (97 ∷ 110 ∷ 103 ∷ 101 ∷ 114 ∷ [])
    ∷ (111 ∷ 112 ∷ 116 ∷ 105 ∷ 111 ∷ 110 ∷ 115 ∷ [])
    ∷ []

abbrev pub is_blank : Text → Bool
is_blank s = eq_text (trim_space s) []

-- A field of the object: its key and its raw text.
abbrev pub Field : Type 0
Field = Text × Text

abbrev pub is_junk : Field → Bool
is_junk f = not (has_text f.0 judge_reply_keys)

abbrev pub later_key : Field → Field → Bool
later_key f g = lt_text g.0 f.0

-- One array under a junk key, and whether nothing is missing any more.
unfoldable pub take_strays : ℕ → List Text → List Text → List Text × Bool
take_strays have out [] = (out, false)
take_strays have out (s ∷ arr) = elim (leb option_count (have + length out)) [
  | true ↦ (out, true)
  | false ↦ take_strays have (if is_blank s then out else out ++ s ∷ []) arr
]

module _ (strings : Text → Option (List Text)) where
  unfoldable pub stray_fields : ℕ → List Text → List Field → List Text
  unfolding take_strays
  stray_fields have out [] = out
  stray_fields have out (f ∷ fs) = elim (strings f.1) [
    | none ↦ stray_fields have out fs
    | some arr ↦ elim (take_strays have out arr).1 [
      | true ↦ (take_strays have out arr).0
      | false ↦ stray_fields have (take_strays have out arr).0 fs
    ]
  ]

  module _ (object : Text → Option (List Field)) where
    -- `strayOptions`
    unfoldable pub stray_options : Text → ℕ → List Text
    unfolding stray_fields
    stray_options json_text have = elim (object json_text) [
      | none ↦ []
      | some fields ↦ stray_fields have [] (order_by later_key (keep is_junk fields))
    ]

    module _ (parse : Text → Option JudgeReply) where
      -- `salvageJudgeReply`
      unfoldable pub salvage : Text → Option JudgeReply
      unfolding escape_control stray_options
      salvage content =
          let fixed = escape_control content in
          elim (parse fixed) [
            | none ↦ none
            | some jr ↦
                if is_blank jr.reply
                then none
                else if ltb (length jr.options) option_count
                then some
                    (record jr { options = jr.options ++ stray_options fixed (length jr.options) })
                else some jr
          ]
