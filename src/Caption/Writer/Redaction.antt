-- ===== src/Caption/Writer/Redaction.antt =====
-- internal/caption/audit.go: the attributes of LogRecord and AuditLogHandler. `lower` is strings.ToLower on a code point.
use pi_live_captions.Base.{
  ℕ, List, [], ◌∷◌, ◌++◌, Bool, true, false, ◌&&◌, ◌||◌, ◌≡◌, Text, codes, text_eq, is_empty, ◌==◌,
  if◌then◌else◌, ◌⊎◌, map, Option, ℤ, pos, leb_ℤ,
}
use pi_live_captions.Caption.Writer.State.{Writer, Failure, AttrValue}
use pi_live_captions.Caption.Writer.Sink.{write_audit, log_record}

abbrev pub starts_with : Text → Text → Bool
starts_with [] s = true
starts_with (p ∷ ps) [] = false
starts_with (p ∷ ps) (c ∷ cs) = p == c && starts_with ps cs

-- strings.Contains
abbrev pub has_text : Text → Text → Bool
has_text part [] = is_empty part
has_text part (c ∷ cs) = starts_with part (c ∷ cs) || has_text part cs

-- The replacer of "_", "-" and "." by nothing.
abbrev pub strip : Text → Text
strip [] = []
strip (c ∷ cs) = if c == b'_' || c == b'-' || c == b'.' then strip cs else c ∷ strip cs

abbrev pub redacted : Text
redacted = codes "[REDACTED]"

-- m[key] = value
abbrev pub put : Text → AttrValue → List (Text × AttrValue) → List (Text × AttrValue)
put k v [] = (k, v) ∷ []
put k v ((j, u) ∷ m) = if text_eq j k then (j, v) ∷ m else (j, u) ∷ put k v m

-- A name that speaks of a credential.
pub data Credential : Type 0 where
  api_key password authorization secret token : Credential

abbrev word_of : Credential → Text
word_of Credential.api_key = codes "apikey"
word_of Credential.password = codes "password"
word_of Credential.authorization = codes "authorization"
word_of Credential.secret = codes "secret"
word_of Credential.token = codes "token"

abbrev IsSeparator : ℕ → Type 0
IsSeparator c = (c ≡ b'_') ⊎ (c ≡ b'-') ⊎ (c ≡ b'.')

-- m[key] of the names alone.
abbrev pub has_key : Text → List (Text × AttrValue) → Bool
has_key k [] = false
has_key k ((j, u) ∷ m) = text_eq j k || has_key k m

-- The attribute's name, if it has one, is a key.
abbrev pub IsNamed : List (Text × AttrValue) → Text × AttrValue → Type 0
IsNamed m (k, v) = is_empty k ≡ false → has_key k m ≡ true

module _ (lower : ℕ → ℕ) where
  unfoldable pub is_sensitive : Text → Bool
  is_sensitive name =
      let key = map lower (strip name) in
      has_text (codes "apikey") key
      || has_text (codes "password") key
      || has_text (codes "authorization") key
      || has_text (codes "secret") key
      || has_text (codes "token") key

  unfoldable pub put_attr : List (Text × AttrValue) → Text → AttrValue → List (Text × AttrValue)
  put_attr m k v =
      if is_empty k then m else put k (if is_sensitive k then AttrValue.text redacted else v) m

  unfoldable pub log_attrs :
      List (Text × AttrValue) → List (Text × AttrValue) → List (Text × AttrValue)
  log_attrs m [] = m
  log_attrs m ((k, v) ∷ attrs) = log_attrs (put_attr m k v) attrs

  -- The word is the beginning of the name: letters in any case, separators between them or not.
  pub data Spelled : Text → Text → Type 0 where
    done : (name : Text) → Spelled [] name
    letter :
        (w c : ℕ) (word name : Text)
        → ¬ IsSeparator c
        → lower c ≡ w
        → Spelled word name
        → Spelled (w ∷ word) (c ∷ name)
    separator :
        (c : ℕ) (word name : Text) → IsSeparator c → Spelled word name → Spelled word (c ∷ name)

  -- Somewhere in the name a credential is spelled.
  pub data Speaks : Text → Type 0 where
    here : (c : Credential) (name : Text) → Spelled (word_of c) name → Speaks name
    later : (c : ℕ) (name : Text) → Speaks name → Speaks (c ∷ name)

  abbrev pub IsClean : Text × AttrValue → Type 0
  IsClean (k, v) = Speaks k → v ≡ AttrValue.text redacted

  -- AuditLogHandler.Handle, before the wrapped handler: its own attributes and the record's.
  module _ {F : Type 0} where
    unfoldable pub handle :
        Writer F
        → ℤ
        → Text
        → List (Text × AttrValue)
        → List (Text × AttrValue)
        → Option Failure
        → ℤ
        → Writer F
    handle w level message own attrs answer now =
        let name = if leb_ℤ (pos 8) level then codes "error" else codes "warning" in
        if leb_ℤ (pos 4) level
        then write_audit w (log_record w name message (log_attrs [] (own ++ attrs)) now) answer
        else w
