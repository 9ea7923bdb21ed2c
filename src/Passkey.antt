-- ===== src/Passkey.antt =====
-- Passkey registration, src/server/tmpl/static/js/app.js: the promise chain behind the register button.
-- The network, the authenticator behind `navigator.credentials.create` and the messages of the
-- exceptions that the platform throws are arguments. An answer that is no JSON, or none at all, is a
-- failure with a message.
pub mod Laws
use caslink.Prelude.{
  ℕ, Text, codes, Bool, true, false, List, [], ◌∷◌, ◌++◌, Option, none, some, if◌then◌else◌, is_nil,
}
use caslink.Base64.{buffer_encode, buffer_decode}

-- A promise's outcome; an exception carries its `message`.
pub data Outcome {ℓ} (A : Type ℓ) : Type ℓ where
  rejected : Text → Outcome A
  resolved : A → Outcome A

infixl 5 ◌>>=◌
abbrev pub ◌>>=◌ {ℓ κ} : {A : Type ℓ} {B : Type κ} → Outcome A → (A → Outcome B) → Outcome B
rejected message >>= next = rejected message
resolved value >>= next = next value

-- A credential descriptor of `excludeCredentials`; `type` and `transports` pass through.
pub record Descriptor {ℓ} (Bytes : Type ℓ) : Type ℓ where
  pub id : Bytes
  pub type : Text
  pub transports : List Text

-- `opts.publicKey`, with texts as the server sends them or with bytes as the authenticator wants
-- them.
pub record Options {ℓ} (Bytes : Type ℓ) : Type ℓ where
  pub challenge : Bytes
  pub user_id : Bytes
  pub exclude : Option (List (Descriptor Bytes))

-- The JSON envelope of both endpoints; empty texts stand for missing ones, as `||` reads them.
pub record Body {ℓ} (A : Type ℓ) : Type ℓ where
  pub is_ok : Bool
  pub message : Text
  pub error : Text
  pub payload : A

pub record Credential : Type 0 where
  pub id : Text
  pub raw_id : List ℕ
  pub type : Text
  pub attestation_object : List ℕ
  pub client_data_json : List ℕ

-- The JSON that goes to /users/passkeys/finish-register.
pub record FinishBody : Type 0 where
  pub id : Text
  pub raw_id : Text
  pub type : Text
  pub attestation_object : Text
  pub client_data_json : Text

-- What the page depends on: both endpoints, the authenticator, and the message of the exception that
-- `atob` throws.
pub record World : Type 0 where
  pub begin_register : Outcome (Body (Options Text))
  pub create : Options (List ℕ) → Outcome Credential
  pub finish_register : Text → FinishBody → Outcome (Body (Unit {0}))
  pub atob_message : Text

-- `body.message || body.error`
abbrev pub message_or_error {ℓ} : {A : Type ℓ} → Body A → Text
message_or_error b = if is_nil b.message then b.error else b.message

-- `if (!body.ok) throw new Error(…)`
abbrev pub check_body {ℓ} : {A : Type ℓ} → Body A → Outcome A
check_body b = if b.is_ok then resolved b.payload else rejected (message_or_error b)

abbrev pub decoded : Text → Option (List ℕ) → Outcome (List ℕ)
decoded message none = rejected message
decoded message (some bytes) = resolved bytes

unfoldable pub decode_all : Text → List (Descriptor Text) → Outcome (List (Descriptor (List ℕ)))
decode_all message [] = resolved []
decode_all message (d ∷ ds) = do
  bytes ← decoded message (buffer_decode d.id)
  rest ← decode_all message ds
  resolved (record { id = bytes; type = d.type; transports = d.transports } ∷ rest)

abbrev pub decode_exclude :
    Text → Option (List (Descriptor Text)) → Outcome (Option (List (Descriptor (List ℕ))))
decode_exclude message none = resolved none
decode_exclude message (some ds) = do decoded_ds ← decode_all message ds; resolved (some decoded_ds)

unfoldable pub decode_options : Text → Options Text → Outcome (Options (List ℕ))
decode_options message o = do
  challenge ← decoded message (buffer_decode o.challenge)
  user_id ← decoded message (buffer_decode o.user_id)
  exclude ← decode_exclude message o.exclude
  resolved (record { challenge = challenge; user_id = user_id; exclude = exclude })

unfoldable pub finish_body : Credential → FinishBody
finish_body c = record {
  id = c.id;
  raw_id = buffer_encode c.raw_id;
  type = c.type;
  attestation_object = buffer_encode c.attestation_object;
  client_data_json = buffer_encode c.client_data_json;
}

-- `.value.trim() || 'Passkey'`, on the trimmed value.
abbrev pub name_or_default : Text → Text
name_or_default trimmed = if is_nil trimmed then codes "Passkey" else trimmed

module _ (w : World) where
  -- The first part of the chain: what `navigator.credentials.create` gives.
  unfoldable pub new_credential : Outcome Credential
  unfolding decode_options
  new_credential = do
    body ← w.begin_register
    opts ← check_body body
    public_key ← decode_options w.atob_message opts
    w.create public_key

  -- The whole chain.
  unfoldable pub register_chain : Text → Outcome (Unit {0})
  register_chain name = do
    cred ← new_credential
    body ← w.finish_register name (finish_body cred)
    check_body body

-- The button, the status box, and whether the page will be reloaded.
pub data Status : Type 0 where
  hidden : Status
  success : Text → Status
  danger : Text → Status

pub record View : Type 0 where
  pub disabled : Bool
  pub label : Text
  pub status : Status
  pub reloads : Bool

-- The click disables the button and relabels it.
abbrev pub waiting_view : View
waiting_view = record {
  disabled = true;
  label = codes "Waiting for authenticator" ++ 0x2026 ∷ [];
  status = hidden;
  reloads = false;
}

-- The last `then` and the `catch`.
unfoldable pub show_result : Outcome (Unit {0}) → View → View
show_result (resolved u) v = record v {
  status = success (codes "Passkey registered successfully. Refreshing" ++ 0x2026 ∷ []);
  reloads = true;
}
show_result (rejected m) v = record v {
  status = danger (if is_nil m then codes "Registration failed. Please try again." else m);
  disabled = false;
  label = codes "Register Passkey";
}

-- A click on the register button, with the trimmed name, once the chain has settled.
unfoldable pub on_click : World → Text → View
on_click w trimmed = show_result (register_chain w (name_or_default trimmed)) waiting_view

-- On page load: without `window.PublicKeyCredential` the button stays disabled and has no handler.
unfoldable pub on_load : Bool → View → View
on_load supported v = if supported then v else record v {
  disabled = true;
  status = danger (
      codes
        "Your browser does not support passkeys. Try Chrome, Safari 16+, Firefox 119+, or Edge.");
}
