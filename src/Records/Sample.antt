-- ===== src/Records/Sample.antt =====
-- A small world: one campaign, one office, two threads of which one waits for a reply, one mail on
-- record, and one fee in the ledger.
use dialogue_microservices.Prelude.{ℕ, List, [], ◌∷◌, none, some, true, false, Text, codes}
use dialogue_microservices.Prelude.Action.{Error, ok, err}
use dialogue_microservices.Core.Queue.{empty_queue}
use dialogue_microservices.Core.KeyValue.{empty_kv}
use dialogue_microservices.Core.ObjectStore.{empty_objects}
use dialogue_microservices.Records.Domain.{
  Campaign, Jurisdiction, EmailThread, EmailRecord, EmailDirection, SpendEntry, ThreadStatus,
  InboundCategory,
}
use dialogue_microservices.Records.Domain.Config.{CampaignConfig}
use dialogue_microservices.Records.Messages.{
  ContactMessage, ContactSource, FollowupJobMessage, FollowupKind, InboundMailMessage,
}
use dialogue_microservices.Records.Store.{Store, empty_store}
use dialogue_microservices.Records.World.{Env, World}
use dialogue_microservices.Records.Service.{Call}

abbrev pub config : CampaignConfig
config = record {
  name = codes "crash reports";
  record_type = codes "crash reports";
  record_description = codes "all crash reports of 2024";
  legal_basis = codes "the public records act";
  requester = record {
    name = codes "Ada";
    email = codes "ada@example.org";
    organization = none;
    phone = none;
    mailing_address = none;
    anonymous = false;
    consent_confirmed = true;
  };
  scope = record { levels = codes "county" ∷ []; states = codes "MD" ∷ []; only = none };
  limits = record {
    max_concurrent_sends = 1;
    per_office_cooldown_days = 30;
    max_followups = 2;
    followup_interval_days = 7;
    daily_send_cap = 10;
    fee_budget_cents = 20000;
  };
  min_confidence = 600000;
  test_contacts = [];
  dry_run = false;
  notify_email = none;
}

abbrev pub campaign : Campaign
campaign = record { id = 1; config = config; active = true; seeded = true; created_at = some 0 }

abbrev pub office : Jurisdiction
office = record {
  id = 1;
  name = codes "Kent";
  state = codes "MD";
  level = codes "county";
  parent_name = none;
  contact_email = some (codes "clerk@kent.gov");
  contact_name = none;
  contact_url = none;
  contact_verified = true;
  last_contacted_at = none;
}

abbrev pub thread_at : ℕ → ThreadStatus → Text → EmailThread
thread_at i status token = record {
  id = i;
  campaign_id = 1;
  jurisdiction_id = 1;
  thread_token = token;
  contact_email = codes "foia@kent.gov";
  status = status;
  parent_thread_id = none;
  followups_sent = 1;
  next_action_at = none;
  attachment_keys = [];
  notes = [];
  created_at = some 0;
  updated_at = some 0;
}

abbrev pub waiting_thread : EmailThread
waiting_thread = thread_at 1 ThreadStatus.awaiting_reply (codes "0a1b2c3d")

abbrev pub fulfilled_thread : EmailThread
fulfilled_thread = thread_at 2 ThreadStatus.fulfilled (codes "ffffffff")

abbrev pub mail_row : EmailRecord
mail_row = record {
  id = 1;
  thread_id = some 1;
  campaign_id = some 1;
  direction = EmailDirection.inbound;
  from_address = codes "foia@kent.gov";
  to_address = codes "requests@example.org";
  subject = codes "fees";
  body = codes "The fee is $125.50, or $20 by mail.";
  kind = none;
  classification = none;
  message_id = some (codes "<1@kent.gov>");
  source_key = some (codes "inbound/1");
  resend_id = none;
  in_reply_to_email_id = none;
  attachment_refs = [];
  created_at = some 0;
}

abbrev pub entry : SpendEntry
entry = record {
  id = 1;
  campaign_id = 1;
  thread_id = some 1;
  amount_cents = 5000;
  kind = codes "fee_authorized";
  note = [];
  remitted = false;
  notified = false;
  created_at = some 0;
}

abbrev pub store : Store
store = record empty_store {
  campaigns = (1, campaign) ∷ [];
  jurisdictions = (1, office) ∷ [];
  threads = (1, waiting_thread) ∷ (2, fulfilled_thread) ∷ [];
  emails = (1, mail_row) ∷ [];
  spend = (1, entry) ∷ [];
  next_campaign = 2;
  next_jurisdiction = 2;
  next_thread = 3;
  next_email = 2;
  next_spend = 2;
}

abbrev pub world : World
world = record {
  store = store;
  kv = empty_kv;
  documents = empty_objects;
  search_queue = empty_queue 300 3;
  contacts_queue = empty_queue 300 5;
  followups_queue = empty_queue 300 5;
  inbound_queue = empty_queue 300 3;
  submitted = [];
}

abbrev pub contact_message : ContactMessage
contact_message = record {
  campaign_id = 1;
  jurisdiction_id = 1;
  contact_email = codes "clerk@kent.gov";
  source = ContactSource.scraper;
  bypass_cooldown = false;
  parent_thread_id = none;
}

abbrev pub job : ℕ → FollowupJobMessage
job index = record {
  thread_id = 1;
  kind = FollowupKind.followup;
  followup_index = some index;
  inbound_email_id = none;
  amount_cents = none;
}

abbrev pub mail : InboundMailMessage
mail = record {
  source_key = codes "inbound/1";
  message_id = codes "<1@kent.gov>";
  thread_token = some (codes "0a1b2c3d");
  from_address = codes "foia@kent.gov";
  subject = codes "fees";
  body = codes "The fee is $125.50, or $20 by mail.";
  attachments = [];
}

abbrev pub now : ℕ
now = 86400000000000

abbrev pub generated : List Text
generated = codes "kent clerk" ∷ codes "kent clerk" ∷ codes "kent crash reports" ∷ []

abbrev pub env : Env
env = record {
  now = now;
  token_hex = codes "deadbeef";
  from_address = codes "requests@example.org";
  draft_initial = λ c j. ok (codes "Dear clerk,");
  draft_followup = λ c subject days. ok (codes "Any news?");
  draft_clarification = λ c question. ok (codes "We mean 2024.");
  draft_fee_agreement = λ c amount body. ok (codes "We agree to pay.");
  classify = λ subject body. ok (record {
    category = InboundCategory.payment_required;
    summary = [];
    confidence = 900000;
    referral_email = none;
  });
  generate_queries = λ j record_type. ok generated;
  transport = λ email. ok (codes "resend-1");
  hexdigest = λ payload. codes "00";
  encode = λ t. t;
  parse_mime = λ raw. record {
    message_id = none;
    from_address = [];
    subject = [];
    body = [];
    headers = [];
    attachments = [];
  };
  mail_bucket = empty_objects;
  census = none;
  search_query = record { to_json = λ m. []; from_json = λ t. err Error.validation_error };
  contact = record { to_json = λ m. codes "contact"; from_json = λ t. ok contact_message };
  followup_job = record { to_json = λ m. codes "job"; from_json = λ t. ok (job 1) };
  inbound_mail = record { to_json = λ m. codes "mail"; from_json = λ t. ok mail };
}

-- That world before the mail came in.
abbrev pub unseen_world : World
unseen_world = record world { store = record store { emails = [] } }

abbrev pub calls : List (Env × Call)
calls =
    (env, Call.contact (codes "contact"))
    ∷ (env, Call.followup_job (codes "job"))
    ∷ (env, Call.scan)
    ∷ []

-- The mail has the records: the reaction to it closes its thread.
abbrev pub fulfilling_env : Env
fulfilling_env = record env {
  classify = λ subject body. ok (record {
    category = InboundCategory.data_provided;
    summary = [];
    confidence = 900000;
    referral_email = none;
  });
}

-- The same without a token: the mail is matched by the address of its sender.
abbrev pub records_env : Env
records_env = record fulfilling_env {
  inbound_mail = record {
    to_json = λ m. codes "mail";
    from_json = λ t. ok (record mail { message_id = codes "<2@kent.gov>"; thread_token = none });
  };
}
