-- ===== src/Agents/Notification.antt =====
-- agents/notification.py, with `str.format` for replacement fields that are plain names, in
-- templates whose braces match, as those here do.
use Prim.Native.Char.{code}
use banking_ai_platform.Prelude.{
  String, ◌<>◌, Option, none, some, List, [], ◌∷◌, lookup, insert, if◌then◌else◌, ◌==◌,
}

abbrev pub Context : Type 0
Context = List (String × String)

pub record NotificationInput : Type 0 where
  pub template : String
  pub recipient : String
  pub context : Context

pub record RenderedNotification : Type 0 where
  pub channel : String
  pub recipient : String
  pub subject : String
  pub body : String

pub record NotificationOutput : Type 0 where
  pub messages : List RenderedNotification

-- `_TEMPLATES`
unfoldable pub templates : List (String × (String × String))
templates =
    (
      "decision",
      (
        "Update on your case {reference}",
        "A decision has been recorded for case {reference}: {decision}.",
      ),
    )
    ∷ (
      "needs_info",
      (
        "Action needed on case {reference}",
        "We need additional information for case {reference}: {detail}.",
      ),
    )
    ∷ (
      "received",
      (
        "We received your submission {reference}",
        "Your submission {reference} is being processed. No action is needed yet.",
      ),
    )
    ∷ []

abbrev pub write : Option String → Option String → Option String
write (some front) (some back) = some (front <> back)
write _ _ = none

-- How a part of a template is written: as it stands, or, where it begins within a field, the rest
-- of the field's name and what the text after the field becomes. None is a `KeyError`.
pub record Written : Type 0 where
  pub outside : Option String
  pub name : String
  pub after : Option String

unfoldable pub written : Context → String → Written
unfolding lookup
written ctx String.[] = record { outside = some ""; name = ""; after = some "" }
written ctx (String.◌∷◌ c s) =
    let w = written ctx s in
    if code c == b'}'
    then record { outside = write (some (String.◌∷◌ c "")) w.outside; name = ""; after = w.outside }
    else record {
      outside =
          if code c == b'{'
          then write (lookup w.name ctx) w.after
          else write (some (String.◌∷◌ c "")) w.outside;
      name = String.◌∷◌ c w.name;
      after = w.after;
    }

-- `template.format(**ctx)`
unfoldable pub format : Context → String → Option String
unfolding written
format ctx template = (written ctx template).outside

abbrev pub text_or : String → Option String → String
text_or fallback none = fallback
text_or fallback (some text) = text

-- `_safe_format`
unfoldable pub safe_format : String → Context → String
unfolding format
safe_format template ctx = text_or template (format ctx template)

-- `{"reference": "-", "decision": "-", "detail": "-", **context}`
unfoldable pub with_defaults : Context → Context → Context
unfolding insert
with_defaults [] built = built
with_defaults ((key, value) ∷ context) built = with_defaults context (insert key value built)

abbrev pub defaults : Context
defaults = ("reference", "-") ∷ ("decision", "-") ∷ ("detail", "-") ∷ []

abbrev pub template_or : Option (String × String) → String × String
template_or none = ("Notification", "{detail}")
template_or (some pair) = pair

-- `NotificationAgent.run`
unfoldable pub run : NotificationInput → NotificationOutput
unfolding safe_format with_defaults lookup templates
run payload =
    let (subject, body) = template_or (lookup payload.template templates) in
    let ctx = with_defaults payload.context defaults in
    record {
      messages =
          record {
            channel = "email";
            recipient = payload.recipient;
            subject = safe_format subject ctx;
            body = safe_format body ctx;
          }
          ∷ [];
    }
