-- ===== src/Admin/Tests.antt =====
-- One concrete run of each theorem on admins: a confirmed action, and an admin with a session.
use veillend.Base.{
  ◌==◌, ◌≡◌, refl, none, some, List, [], ◌∷◌, ok, running, settle, find_first, arith,
}
use veillend.Auth.Data.{User, Session}
use veillend.Admin.Data.{confirmed, sets_oracle_price, AdminAction, AdminDb}
use veillend.Admin.Actions.{tx_failed}
use veillend.Admin.Members.{remove_admin, remove_admin_tx}
use veillend.Admin.Members.Removal.{Removed, remove_admin_leaves}
use veillend.Admin.History.{
  asks_ratio, reports_hash, watches_chain, AdminRequest, Outside, after_requests,
}
use veillend.Admin.History.Final.{closed_action_stays}

abbrev action : AdminAction
action = record {
  id = 5;
  admin_address = 70;
  intent = sets_oracle_price 80 9;
  xdr = some 300;
  status = confirmed;
  tx_hash = some 600;
  submitted_at = some 50;
  confirmed_at = some 60;
}

abbrev user : User
user = record { id = 1; wallet_address = 70 }

abbrev session : Session
session = record {
  id = 20;
  user_id = 1;
  token = 500;
  expires_at = 9000;
  created_at = 10;
  last_seen_at = 10;
  client = record { ip = none; user_agent = none; correlation_id = none };
}

abbrev tables : AdminDb
tables = record {
  admins = record { id = 2; wallet_address = 70 } ∷ [];
  audit_log = [];
  actions = action ∷ [];
  assets = [];
  auth = record {
    nonces = [];
    users = user ∷ [];
    sessions = session ∷ [];
    refresh_tokens = [];
    jtis = [];
    audit = [];
  };
  next_id = 6;
}

abbrev outside : Outside
outside = record {
  build = λ id admin intent. some 301;
  validate = λ contract. none;
  verified = λ symbol. [];
}

abbrev requests : List AdminRequest
requests =
    record { actor = 70; now = 100; call = asks_ratio 12000 }
    ∷ record { actor = 70; now = 110; call = reports_hash 5 700 }
    ∷ record { actor = 70; now = 120; call = watches_chain (λ hash. tx_failed) }
    ∷ []

found_action : find_first (λ x. x.id == 5) tables.actions ≡ some action
unfolding find_first
found_action = refl

closed_action_stays_example :
    find_first (λ x. x.id == 5) (after_requests outside requests tables).actions ≡ some action
closed_action_stays_example =
    closed_action_stays 5 action outside requests tables found_action (refl, tt) (omega arith)

found_user : find_first (λ x. x.wallet_address == 70) tables.auth.users ≡ some user
unfolding find_first
found_user = refl

removed : (remove_admin 70 71 tables).0 ≡ ok tt
unfolding remove_admin remove_admin_tx running settle find_first
removed = refl

remove_admin_leaves_example : Removed 70 user tables (remove_admin 70 71 tables).1
remove_admin_leaves_example = remove_admin_leaves 70 71 user tables found_user removed
