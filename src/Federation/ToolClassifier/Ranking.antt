-- ===== src/Federation/ToolClassifier/Ranking.antt =====
-- Which risk levels a tool can be given.
use universal_agent_protocol.Base.{◌≡◌, ◌≢◌, ◌⊎◌, ◌↔◌, true, false, Option, Text, codes, arith}
use universal_agent_protocol.Core.Domain.{read_only, write, destructive}
use universal_agent_protocol.Core.Json.{Entries}
use universal_agent_protocol.Federation.ToolClassifier.{
  destructive_words, financial_words, administrative_words, communication_words, write_words, test,
  words_of, hint, haystack, is_read_verb, rank_text, classify_tool,
}

module _ (name : Text) (description : Option Text) (annotations : Option Entries) where
  abbrev text : Text
  text = haystack name description

  abbrev Says : Text → Type 0
  Says key = hint key annotations ≡ true

  -- A tool is classified destructive exactly if its annotations say so, or they do not call it
  -- read-only and its name or description has a destructive word.
  pub destructive_iff : (classify_tool name description annotations ≡ destructive) ↔ (
      Says (codes "destructiveHint")
      ⊎ (hint (codes "readOnlyHint") annotations ≡ false) × (test destructive_words text ≡ true))
  unfolding classify_tool rank_text
  destructive_iff = (λ h. ground arith, λ h. ground arith)

  -- A tool whose annotations do not call it read-only is classified read-only only if its text has
  -- no destructive, financial, administrative or communication word, and no writing word unless
  -- its name begins with a reading verb.
  pub read_only_needs :
      classify_tool name description annotations ≡ read_only
      → hint (codes "readOnlyHint") annotations ≡ false
      → (test destructive_words text ≡ false)
        × (test financial_words text ≡ false)
        × (test administrative_words text ≡ false)
        × (test communication_words text ≡ false)
        × ((test write_words text ≡ false) ⊎ (is_read_verb (words_of name) ≡ true))
  unfolding classify_tool rank_text
  read_only_needs h k = ground arith

  -- A name that begins with a reading verb is never classified as a write.
  pub read_verb-ne-write :
      is_read_verb (words_of name) ≡ true → classify_tool name description annotations ≢ write
  unfolding classify_tool rank_text
  read_verb-ne-write h e = ground arith
