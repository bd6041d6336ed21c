-- ===== src/Proto/Capabilities/Laws.antt =====
-- The reply to CAPABILITIES that a server writes, read by crates/nntp-proto/src/capabilities.rs.
use rust_nntp.Prelude.Text.{Bytes}
use rust_nntp.Prelude.{List, [], ◌∷◌, ◌≡◌, refl, ap, ◌∙◌, arith, All, All-append, map}
use rust_nntp.Proto.Capabilities.{Capability, Capabilities, add_line, parse_lines, parse}
use rust_nntp.Proto.Group.Reply.{IsWord, first_word, only_word}
use rust_nntp.Proto.List.Laws.{decode_8bit_lossy-utf8}
use rust_nntp.Proto.List.{join_words}
use rust_nntp.Proto.Response.{words_onto}
use rust_nntp.Proto.Utf8.Lossy.{IsChar}
use rust_nntp.Proto.Utf8.{utf8}

words_onto-join_words : (ws : List Bytes) → All IsWord ws → words_onto [] (join_words ws) ≡ ws
unfolding join_words
words_onto-join_words [] h = unfold words_onto in refl
words_onto-join_words (w ∷ []) (hw, h) = only_word w hw
words_onto-join_words (w ∷ v ∷ ws) (hw, h) =
    first_word w (join_words (v ∷ ws)) hw ∙ ap (λ xs. w ∷ xs) (words_onto-join_words (v ∷ ws) h)

-- A word of a text.
abbrev pub IsToken : Bytes → Type 0
IsToken w = IsWord w × All IsChar w

join_words-All : (ws : List Bytes) → All IsToken ws → All IsChar (join_words ws)
unfolding join_words
join_words-All [] h = tt
join_words-All (w ∷ []) ((_, hw), h) = hw
join_words-All (w ∷ v ∷ ws) ((_, hw), h) =
    All-append IsChar w (b' ' ∷ join_words (v ∷ ws)) hw
      ((refl, omega arith), join_words-All (v ∷ ws) h)

tokens-words : (ws : List Bytes) → All IsToken ws → All IsWord ws
tokens-words [] h = tt
tokens-words (w ∷ ws) ((hw, _), h) = (hw, tokens-words ws h)

-- The line of a capability: its label and its arguments.
abbrev pub capability_line : Capability → Bytes
capability_line c = utf8 (join_words (c.label ∷ c.args))

abbrev pub AreTokens : Capabilities → Type 0
AreTokens [] = Unit
AreTokens (c ∷ cs) = All IsToken (c.label ∷ c.args) × AreTokens cs

-- Capabilities whose labels and arguments are words are read back from their lines, in their order,
-- with their arguments; and the decoder of Windows-1252 has no part in it.
pub parse-capability_line :
    (windows_1252 : Bytes → Bytes) (entries : Capabilities)
    → AreTokens entries
    → parse windows_1252 (record { lines = map capability_line entries }) ≡ entries
unfolding parse parse_lines add_line
parse-capability_line windows_1252 [] h = refl
parse-capability_line windows_1252 (c ∷ cs) (hc, h) =
    ap (λ ws. add_line ws (parse_lines windows_1252 (map capability_line cs)))
      (ap (words_onto []) (
          decode_8bit_lossy-utf8 windows_1252 (join_words (c.label ∷ c.args))
            (join_words-All (c.label ∷ c.args) hc))
        ∙ words_onto-join_words (c.label ∷ c.args) (tokens-words (c.label ∷ c.args) hc))
    ∙ ap (λ xs. c ∷ xs) (parse-capability_line windows_1252 cs h)
