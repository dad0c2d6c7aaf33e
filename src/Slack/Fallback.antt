-- ===== src/Slack/Fallback.antt =====
-- Where a message goes.
use go_fw.Prelude.{
  ℕ, ◌/◌, ◌==◌, ◌<◌, ◌≤◌, ◌≡◌, ◌≢◌, ◌⊎◌, refl, inl, inr, false, Bool-cases, Option, none, some, [],
  ◌∷◌, arith,
}
use go_fw.Prelude.Text.{Text, eqb_text}
use go_fw.Slack.{
  WebhookChannelType, channel_info, channel_warn, channel_error, WebhookUrls, url_for, Sent,
  panicked, nothing, done, not_sent, not_successful, HttpReply, http_failed, http_status, answered,
  send_raw,
}

abbrev pub severity : WebhookChannelType → ℕ
severity channel_info = 0
severity channel_warn = 1
severity channel_error = 2

abbrev pub url_of : WebhookUrls → WebhookChannelType → Text
url_of urls channel_info = urls.info
url_of urls channel_warn = urls.warn
url_of urls channel_error = urls.error

-- The URL of a channel that is as severe at most, of which every channel in between has none.
abbrev pub IsFallback : WebhookUrls → WebhookChannelType → WebhookChannelType → Type 0
IsFallback urls c d =
    (severity d ≤ severity c)
    × (url_of urls d ≢ [])
    × ((e : WebhookChannelType)
        → severity d < severity e
        → severity e ≤ severity c
        → url_of urls e ≡ [])

-- The URL that a reply speaks of.
abbrev pub sent_to : Sent → Option Text
sent_to panicked = none
sent_to nothing = none
sent_to (done url) = some url
sent_to (not_sent url e) = some url
sent_to (not_successful url code body) = some url

sent_to-answered : (unread url : Text) (r : HttpReply) → sent_to (answered unread url r) ≡ some url
sent_to-answered unread url (http_failed e) = refl
sent_to-answered unread url (http_status code body) = elim (Bool-cases (code / 100 == 2)) [
  | inl e ↦ rw e refl
  | inr e ↦ rw e refl
]

empty_cases : (u : Text) → (u ≡ []) ⊎ ((u ≢ []) × (eqb_text u [] ≡ false))
empty_cases [] = inl refl
empty_cases (c ∷ u) = inr (λ e. absurd cc, refl)

info_empty :
    (urls : WebhookUrls)
    → urls.info ≡ []
    → (e : WebhookChannelType) → severity e ≤ 0
    → url_of urls e ≡ []
info_empty urls i channel_info l = i
info_empty urls i channel_warn l = absurd (omega (arith, l))
info_empty urls i channel_error l = absurd (omega (arith, l))

warn_empty :
    (urls : WebhookUrls)
    → urls.warn ≡ []
    → urls.info ≡ []
    → (e : WebhookChannelType) → severity e ≤ 1
    → url_of urls e ≡ []
warn_empty urls w i channel_info l = i
warn_empty urls w i channel_warn l = w
warn_empty urls w i channel_error l = absurd (omega (arith, l))

all_empty :
    (urls : WebhookUrls)
    → urls.error ≡ []
    → urls.warn ≡ []
    → urls.info ≡ []
    → (e : WebhookChannelType) → severity e ≤ 2
    → url_of urls e ≡ []
all_empty urls r w i channel_info l = i
all_empty urls r w i channel_warn l = w
all_empty urls r w i channel_error l = r

above_info :
    (urls : WebhookUrls)
    → urls.warn ≡ []
    → (e : WebhookChannelType) → 0 < severity e
    → severity e ≤ 1
    → url_of urls e ≡ []
above_info urls w channel_info l m = absurd (omega (arith, l))
above_info urls w channel_warn l m = w
above_info urls w channel_error l m = absurd (omega (arith, m))

above_warn :
    (urls : WebhookUrls)
    → urls.error ≡ []
    → (e : WebhookChannelType) → 1 < severity e
    → severity e ≤ 2
    → url_of urls e ≡ []
above_warn urls r channel_info l m = absurd (omega (arith, l))
above_warn urls r channel_warn l m = absurd (omega (arith, l))
above_warn urls r channel_error l m = r

above_both :
    (urls : WebhookUrls)
    → urls.error ≡ []
    → urls.warn ≡ []
    → (e : WebhookChannelType) → 0 < severity e
    → severity e ≤ 2
    → url_of urls e ≡ []
above_both urls r w channel_info l m = absurd (omega (arith, l))
above_both urls r w channel_warn l m = w
above_both urls r w channel_error l m = r

abbrev Chosen : WebhookUrls → WebhookChannelType → Text → Type 0
Chosen urls c url =
    ((d : WebhookChannelType) × IsFallback urls c d × (url ≡ url_of urls d))
    ⊎ ((url ≡ []) × ((e : WebhookChannelType) → severity e ≤ severity c → url_of urls e ≡ []))

url_for-Chosen : (urls : WebhookUrls) (c : WebhookChannelType) → Chosen urls c (url_for urls c)
unfolding url_for
url_for-Chosen urls channel_info = elim (empty_cases urls.info) [
  | inl e ↦ inr (e, info_empty urls e)
  | inr (d, b) ↦ inl (channel_info, (omega arith, d, λ x l m. absurd (omega (arith, l, m))), refl)
]
url_for-Chosen urls channel_warn = elim (empty_cases urls.warn) [
  | inr (d, b) ↦
      inl (channel_warn, (omega arith, d, λ x l m. absurd (omega (arith, l, m))), rw b refl)
  | inl w ↦ elim (empty_cases urls.info) [
    | inl e ↦ inr (rw (w, e) refl, warn_empty urls w e)
    | inr (d, b) ↦ inl (channel_info, (omega arith, d, above_info urls w), rw (w, b) refl)
  ]
]
url_for-Chosen urls channel_error = elim (empty_cases urls.error) [
  | inr (d, b) ↦
      inl (channel_error, (omega arith, d, λ x l m. absurd (omega (arith, l, m))), rw b refl)
  | inl r ↦ elim (empty_cases urls.warn) [
    | inr (d, b) ↦ inl (channel_warn, (omega arith, d, above_warn urls r), rw (r, b) refl)
    | inl w ↦ elim (empty_cases urls.info) [
      | inl e ↦ inr (rw (r, w, e) refl, all_empty urls r w e)
      | inr (d, b) ↦ inl (channel_info, (omega arith, d, above_both urls r w), rw (r, w, b) refl)
    ]
  ]
]

-- A message goes to the URL of the most severe channel up to its own that has one; if none of them
-- has one nothing is sent and there is no error. For a channel type that is none of the three, it
-- panics.
pub send_raw-IsFallback :
    (unread : Text) (urls : WebhookUrls) (post : Text → HttpReply) (c : WebhookChannelType)
    → (((d : WebhookChannelType) × IsFallback urls c d
          × (sent_to (send_raw unread urls post (some c)) ≡ some (url_of urls d)))
        ⊎ ((send_raw unread urls post (some c) ≡ nothing)
            × ((e : WebhookChannelType) → severity e ≤ severity c → url_of urls e ≡ [])))
      × (send_raw unread urls post none ≡ panicked)
unfolding send_raw
send_raw-IsFallback unread urls post c = (
  elim (url_for-Chosen urls c) [
    | inr (e, h) ↦ inr (rw e refl, h)
    | inl (d, fall, e) ↦ elim (empty_cases (url_of urls d)) [
      | inl none_there ↦ absurd (fall.1 none_there)
      | inr (k, b) ↦
          inl (d, fall, rw (e, b) (sent_to-answered unread (url_of urls d) (post (url_of urls d))))
    ]
  ],
  refl,
)
