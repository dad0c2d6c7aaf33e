-- ===== src/Slack/Tests.antt =====
-- The theorem on messages at a client without a URL for errors.
use go_fw.Prelude.{◌≤◌, ◌≡◌, ◌⊎◌, none, some, some, []}
use go_fw.Prelude.Text.{Text, codes}
use go_fw.Slack.{
  WebhookChannelType, channel_error, WebhookUrls, HttpReply, http_status, nothing, panicked,
  send_raw,
}
use go_fw.Slack.Fallback.{IsFallback, severity, url_of, sent_to, send_raw-IsFallback}

abbrev urls : WebhookUrls
urls = record { info = codes "i"; warn = codes "w"; error = [] }

abbrev busy : Text → HttpReply
busy url = http_status 503 none

send_raw-IsFallback_example :
    (((d : WebhookChannelType) × IsFallback urls channel_error d
        × (sent_to (send_raw (codes "?") urls busy (some channel_error)) ≡ some (url_of urls d)))
      ⊎ ((send_raw (codes "?") urls busy (some channel_error) ≡ nothing)
          × ((e : WebhookChannelType) → severity e ≤ 2 → url_of urls e ≡ [])))
    × (send_raw (codes "?") urls busy none ≡ panicked)
send_raw-IsFallback_example = send_raw-IsFallback (codes "?") urls busy channel_error
