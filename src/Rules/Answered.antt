-- ===== src/Rules/Answered.antt =====
-- What the endpoint of the rule sets writes of the rule set that it has found.
use singboxconfig.Prelude.{
  Str, Bool, true, false, List, ◌∷◌, Option, none, some, ◌≡◌, refl, arith, equal, if◌then◌else◌,
  ◌++◌, codes,
}
use singboxconfig.Prelude.Exec.{raise, ok}
use singboxconfig.Strings.{is_empty, trim_space}
use singboxconfig.Entity.{RuleSet, rule_set_type_remote}
use singboxconfig.Generated.Server.{ServerState}
use singboxconfig.Generated.{Status}
use singboxconfig.Rules.{Json, normalize_singbox, render_lines}
use singboxconfig.Rules.Endpoint.{
  Software, singbox, surge, shadowrocket, RulesBody, json_body, text_body, join, json_or_failed,
  text_or_failed, titled_by, render_for, answer_rule_set,
}

-- What a client gets of a rule set: the normalized content, or its lines one to a line of text, for
-- Surge under a title.
abbrev pub IsBody : Json → Software → RuleSet → RulesBody → Type 0
IsBody x singbox r body =
    (text : Str) × (normalize_singbox x r.content ≡ some text) × (body ≡ json_body text)
IsBody x surge r body =
    (lines : List Str) × (warnings : List Str) × (render_lines x r.content ≡ some (lines, warnings))
    × (body
        ≡ text_body (
            join (codes "\n") (
              (codes "# " ++ (if is_empty (trim_space r.name) then r.tag else trim_space r.name))
              ∷ lines)))
IsBody x shadowrocket r body =
    (lines : List Str) × (warnings : List Str) × (render_lines x r.content ≡ some (lines, warnings))
    × (body ≡ text_body (join (codes "\n") lines))

json_or_failed-ok :
    (text : Option Str) (s t : ServerState) (body : RulesBody)
    → json_or_failed text s ≡ (ok body, t)
    → (normalized : Str) × (text ≡ some normalized) × (body ≡ json_body normalized)
unfolding json_or_failed
json_or_failed-ok none s t body h = absurd (ground arith)
json_or_failed-ok (some text) s t body h = (text, refl, ground arith)

text_or_failed-ok :
    (titled : List Str → List Str) (rendered : Option (List Str × List Str)) (s t : ServerState)
    (body : RulesBody)
    → text_or_failed titled rendered s ≡ (ok body, t)
    → (lines : List Str) × (warnings : List Str) × (rendered ≡ some (lines, warnings))
      × (body ≡ text_body (join (codes "\n") (titled lines)))
unfolding text_or_failed
text_or_failed-ok titled none s t body h = absurd (ground arith)
text_or_failed-ok titled (some (lines, warnings)) s t body h = (lines, warnings, refl, ground arith)

module _ (x : Json) where
  render_for-ok :
      (software : Software) (r : RuleSet) (s t : ServerState) (body : RulesBody)
      → render_for x software r s ≡ (ok body, t)
      → IsBody x software r body
  unfolding render_for titled_by
  render_for-ok singbox r s t body h = json_or_failed-ok (normalize_singbox x r.content) s t body h
  render_for-ok surge r s t body h =
      text_or_failed-ok (titled_by r) (render_lines x r.content) s t body h
  render_for-ok shadowrocket r s t body h =
      text_or_failed-ok (λ lines. lines) (render_lines x r.content) s t body h

  pub answer_rule_set-ok :
      (software : Software) (found : Option RuleSet) (s t : ServerState) (body : RulesBody)
      → answer_rule_set x software found s ≡ (ok body, t)
      → (r : RuleSet) × (found ≡ some r)
        × (equal r.rule_set_type rule_set_type_remote ≡ false)
        × IsBody x software r body
  unfolding answer_rule_set
  answer_rule_set-ok software none s t body h = absurd (ground arith)
  answer_rule_set-ok software (some r) s t body h =
      go (equal r.rule_set_type rule_set_type_remote) refl h
    where
      go :
          (b : Bool)
          → equal r.rule_set_type rule_set_type_remote ≡ b
          → (if b then raise Status.bad_request else render_for x software r) s ≡ (ok body, t)
          → (q : RuleSet) × (◌≡◌ {A = Option RuleSet} (some r) (some q))
            × (equal q.rule_set_type rule_set_type_remote ≡ false)
            × IsBody x software q body
      go true e h = absurd (ground arith)
      go false e h = (r, refl, e, render_for-ok software r s t body h)
