-- ===== src/Slack.antt =====
-- slack/slack_client.go: which webhook a message goes to, and how the sending of it ends. The body is
-- made by templates and by JSON, and comes as a text; the HTTP client is an argument.
pub mod Fallback
pub mod Tests
use go_fw.Prelude.{
  ℕ, ◌/◌, Bool, true, false, not, ◌&&◌, Option, none, some, List, [], ◌∷◌, ◌==◌, if◌then◌else◌,
}
use go_fw.Prelude.Text.{Text, eqb_text}

pub data WebhookChannelType : Type 0 where
  channel_info channel_warn channel_error : WebhookChannelType

pub record WebhookUrls : Type 0 where
  pub info : Text
  pub warn : Text
  pub error : Text

abbrev pub first_non_empty : List Text → Text
first_non_empty [] = []
first_non_empty (u ∷ us) = let rest = first_non_empty us in if eqb_text u [] then rest else u

-- The URL for a channel type that is one of the constants.
unfoldable pub url_for : WebhookUrls → WebhookChannelType → Text
url_for urls channel_info = urls.info
url_for urls channel_warn = first_non_empty (urls.warn ∷ urls.info ∷ [])
url_for urls channel_error = first_non_empty (urls.error ∷ urls.warn ∷ urls.info ∷ [])

-- A channel type is a text, which is `none` here if it is no constant; `none` is a panic.
abbrev pub get_webhook_url : WebhookUrls → Option WebhookChannelType → Option Text
get_webhook_url urls none = none
get_webhook_url urls (some c) = some (url_for urls c)

-- What `NewSlackClient` does, its templates aside: no client, a panic, or a client.
pub data Created : Type 0 where
  no_client panics : Created
  client : WebhookUrls → Created

unfoldable pub new_slack_client : Bool → WebhookUrls → Created
new_slack_client enabled urls =
    if not enabled
    then no_client
    else (if eqb_text urls.error [] && eqb_text urls.warn [] && eqb_text urls.info []
        then panics
        else client urls)

-- The answer to a request: an error, or a status code, with the body if it could be read.
pub data HttpReply : Type 0 where
  http_failed : ℕ → HttpReply
  http_status : ℕ → Option Text → HttpReply

-- How `sendRaw` ends: it panicked; it sent nothing; or to a URL, with an error or none.
pub data Sent : Type 0 where
  panicked nothing : Sent
  done : Text → Sent
  not_sent : Text → ℕ → Sent
  not_successful : Text → ℕ → Text → Sent

abbrev pub body_or : Text → Option Text → Text
body_or unread none = unread
body_or unread (some body) = body

abbrev pub answered : Text → Text → HttpReply → Sent
answered unread url (http_failed e) = not_sent url e
answered unread url (http_status code body) =
    if code / 100 == 2 then done url else not_successful url code (body_or unread body)

abbrev pub send_to : Text → (Text → HttpReply) → Option Text → Sent
send_to unread post none = panicked
send_to unread post (some url) =
    let reply = answered unread url (post url) in if eqb_text url [] then nothing else reply

-- `sendRaw`, with the text for a body that cannot be read.
unfoldable pub send_raw : Text → WebhookUrls → (Text → HttpReply) → Option WebhookChannelType → Sent
send_raw unread urls post channel = send_to unread post (get_webhook_url urls channel)
