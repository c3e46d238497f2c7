-- ===== src/Client/Service.antt =====
-- What `_publish` of im_sdk/client.py relies on in the OpenEvent service, for the messages of one
-- principal, which publishes nothing at the same time elsewhere.
use openevent_modules_im.Prelude.{
  ℕ, ◌≤◌, ◌<◌, ◌≡◌, ◌⊎◌, String, Bool, false, some, List, [], ◌∷◌, Member, ok, raise, Error,
  error_class, rpc_error, StatusCode, unauthenticated, permission_denied, not_found,
  invalid_argument, resource_exhausted,
}
use openevent_modules_im.OpenEvent.{Message, FetchResponse, OpenEventClient}

-- The status codes with which OpenEvent says that it has refused a request.
pub data Refuses : StatusCode → Type 0 where
  no_token : Refuses unauthenticated
  no_permission : Refuses permission_denied
  no_target : Refuses not_found
  bad_request : Refuses invalid_argument
  no_room : Refuses resource_exhausted

module _ {W Bytes : Type 0} (openevent : OpenEventClient W Bytes) (principal : ℕ) where
  open openevent use {publish_auto_seq, get_status, fetch}

  pub record Service : Type 0 where
    -- What the principal has published, and the greatest sequence number that was given.
    pub log : W → List (Message Bytes)
    pub max_seq : W → ℕ
    -- Reading publishes nothing, and no sequence number is taken back.
    pub status_log : (token : String) (w : W) → log (get_status principal token w).1 ≡ log w
    pub fetch_log :
        (token : String) (from_seq limit : ℕ) (mine : Bool) (channels : List ℕ) (w : W)
        → log (fetch principal token from_seq limit mine channels w).1 ≡ log w
    -- GetStatus answers at least the number of each message of the log.
    pub status_bound :
        (token : String) (w : W) (n : ℕ)
        → (get_status principal token w).0 ≡ ok n
        → (m : Message Bytes) → Member m (log w)
        → m.seq ≤ n
    pub status_max :
        (token : String) (w : W) (n : ℕ)
        → (get_status principal token w).0 ≡ ok n
        → n ≤ max_seq (get_status principal token w).1
    -- A call of PublishAutoSeq adds messages with new numbers only, whether it answers or not.
    pub publish_new :
        (token : String) (channel_id : ℕ) (payload : Bytes) (recipients : List ℕ) (w : W)
        (m : Message Bytes)
        → Member m (log (publish_auto_seq principal token channel_id payload recipients w).1)
        → Member m (log w) ⊎ (max_seq w < m.seq)
    -- It takes no message back.
    pub publish_kept :
        (token : String) (channel_id : ℕ) (payload : Bytes) (recipients : List ℕ) (w : W)
        (m : Message Bytes)
        → Member m (log w)
        → Member m (log (publish_auto_seq principal token channel_id payload recipients w).1)
    -- It adds one message at most.
    pub publish_single :
        (token : String) (channel_id : ℕ) (payload : Bytes) (recipients : List ℕ) (w : W)
        (m m' : Message Bytes)
        → Member m (log (publish_auto_seq principal token channel_id payload recipients w).1)
        → Member m' (log (publish_auto_seq principal token channel_id payload recipients w).1)
        → max_seq w < m.seq
        → max_seq w < m'.seq
        → m ≡ m'
    -- Where it answers a number, the message has that number.
    pub publish_ok :
        (token : String) (channel_id : ℕ) (payload : Bytes) (recipients : List ℕ) (w : W) (seq : ℕ)
        → (publish_auto_seq principal token channel_id payload recipients w).0 ≡ ok (some seq)
        → (max_seq w < seq)
          × Member
              (record {
                seq = seq;
                channel_id = channel_id;
                principal = principal;
                recipients = recipients;
                payload = payload;
              })
              (log (publish_auto_seq principal token channel_id payload recipients w).1)
    -- Where it refuses the request, it has added nothing.
    pub refused :
        (token : String) (channel_id : ℕ) (payload : Bytes) (recipients : List ℕ) (w : W)
        (e : Error) (code : StatusCode)
        → (publish_auto_seq principal token channel_id payload recipients w).0 ≡ raise e
        → error_class e ≡ rpc_error (some code)
        → Refuses code
        → log (publish_auto_seq principal token channel_id payload recipients w).1 ≡ log w
    -- A page holds what the principal has published to the channel from `from_seq` up to `next_seq`.
    pub fetch_all :
        (token : String) (from_seq limit channel_id : ℕ) (w : W) (page : FetchResponse Bytes)
        → (fetch principal token from_seq limit false (channel_id ∷ []) w).0 ≡ ok page
        → (m : Message Bytes) → Member m (log w)
        → m.channel_id ≡ channel_id
        → from_seq ≤ m.seq
        → m.seq < page.next_seq
        → Member m page.messages
    -- It holds nothing before `from_seq`, and no message of the principal that is not published.
    pub fetch_sound :
        (token : String) (from_seq limit channel_id : ℕ) (w : W) (page : FetchResponse Bytes)
        → (fetch principal token from_seq limit false (channel_id ∷ []) w).0 ≡ ok page
        → (m : Message Bytes) → Member m page.messages
        → (from_seq ≤ m.seq) × (m.principal ≡ principal → Member m (log w))
