-- ===== src/Pipe.antt =====
-- rcvr_namedpipe.go: the receiver on a named pipe of Windows, without the work on a connection. The
-- calls of the packages `windows` and `go-winio` are parameters.
pub mod Pool
pub mod Safety
use trace2receiver.Common.{
  ℕ, ◌+◌, ◌%◌, ◌^◌, zero, suc, String, Bool, true, false, List, [], ◌∷◌, ◌++◌, Option, none, some,
  Result, ok, err, GoError, Go, ret,
}
use trace2receiver.Common.Fallible.{◌>>=◌ as ◌>>=ᵣ◌}
use trace2receiver.Common.Panics.{◌>>=◌, deref}

pub data WellKnownSid : Type 0 where
  builtin_administrators local_system creator_owner world : WellKnownSid

pub data AccessPermissions : Type 0 where
  generic_all generic_write_read : AccessPermissions

pub data TrusteeType : Type 0 where
  is_group is_user : TrusteeType

-- An entry that grants access to a SID.
pub record ExplicitAccess (Sid : Type 0) : Type 0 where
  pub access_permissions : AccessPermissions
  pub trustee_type : TrusteeType
  pub trustee_value : Sid

-- The parameters of a pipe; MessageMode is off.
pub record PipeConfig : Type 0 where
  pub sddl : String
  pub message_mode : Bool
  pub input_buffer_size : ℕ
  pub output_buffer_size : ℕ
  pub queue_size : ℕ

pub record Windows : Type 1 where
  pub Sid : Type 0
  pub Acl : Type 0
  pub SecurityDescriptor : Type 0
  pub create_well_known_sid : WellKnownSid → Result Sid
  pub new_security_descriptor : Result SecurityDescriptor
  pub acl_from_entries : List (ExplicitAccess Sid) → Result Acl
  -- SetDACL(acl, true, false): the descriptor that it leaves.
  pub set_dacl : SecurityDescriptor → Acl → Result SecurityDescriptor
  pub sd_string : SecurityDescriptor → String
  -- winio.ListenPipe: the listener, which may be nil, and the error.
  pub listen_pipe : String → PipeConfig → Option (Unit {0}) × Option GoError

pub record Rcvr : Type 0 where
  pub named_pipe_path : String
  -- A nil interface, or a listener that is open or not.
  pub listener : Option Bool
  pub cancelled : Bool
  -- The fatal errors reported, and whether `listenLoop` was started.
  pub fatal : List GoError
  pub listening : Bool

abbrev pub listen_queue_size : ℕ
listen_queue_size = 5

abbrev pub accept_pool_size : ℕ
accept_pool_size = 10

-- A call of a method on a nil interface follows a nil pointer.
unfoldable pub shutdown : Rcvr → Go Rcvr
shutdown s = do _ ← deref s.listener; ret (record s { listener = some false; cancelled = true })

abbrev pub as_listener : Option (Unit {0}) → Option Bool
as_listener none = none
as_listener (some _) = some true

-- The end of Start.
abbrev pub report : Rcvr × Option GoError → Rcvr × Option GoError
report (s, some bad) = (record s { fatal = s.fatal ++ bad ∷ [] }, some bad)
report (s, none) = (record s { listening = true }, none)

module _ (w : Windows) where
  abbrev grant : AccessPermissions → TrusteeType → w.Sid → ExplicitAccess w.Sid
  grant permissions kind sid = record {
    access_permissions = permissions;
    trustee_type = kind;
    trustee_value = sid;
  }

  abbrev pub entries : w.Sid → w.Sid → w.Sid → w.Sid → List (ExplicitAccess w.Sid)
  entries admin system owner everyone =
      grant generic_all is_group admin
      ∷ grant generic_all is_group system
      ∷ grant generic_all is_user owner
      ∷ grant generic_write_read is_group everyone
      ∷ []

  unfoldable pub make_sddl : Result String
  make_sddl = w.create_well_known_sid builtin_administrators >>=ᵣ λ admin.
      w.create_well_known_sid local_system >>=ᵣ λ system.
      w.create_well_known_sid creator_owner >>=ᵣ λ owner.
      w.create_well_known_sid world >>=ᵣ λ everyone. w.new_security_descriptor >>=ᵣ λ sd.
      w.acl_from_entries (entries admin system owner everyone) >>=ᵣ λ acl.
      w.set_dacl sd acl >>=ᵣ λ sd'. ok (w.sd_string sd')

  abbrev pub pipe_config : String → PipeConfig
  pipe_config sddl = record {
    sddl = sddl;
    message_mode = false;
    input_buffer_size = 65536;
    output_buffer_size = 65536;
    queue_size = listen_queue_size;
  }

  -- openNamedPipeServer: a nil listener without an error counts as no error.
  unfoldable pub open_named_pipe_server : Rcvr → Rcvr × Option GoError
  unfolding make_sddl
  open_named_pipe_server s = elim make_sddl [
    | err e ↦ (s, some e)
    | ok sddl ↦
        let (listener, e) = w.listen_pipe s.named_pipe_path (pipe_config sddl) in
        (record s { listener = as_listener listener }, e)
  ]

  unfoldable pub start : Rcvr → Rcvr × Option GoError
  unfolding open_named_pipe_server
  start s = report (open_named_pipe_server (record s { cancelled = false }))

-- makeWorkerId: the id, and the counter behind it, a uint64.
unfoldable pub make_worker_id : ℕ → ℕ × ℕ
make_worker_id worker_id = (worker_id, (worker_id + 1) % 2 ^ 64)

-- The ids of so many workers, in the order in which they are made.
unfoldable pub worker_ids : ℕ → ℕ → List ℕ
unfolding make_worker_id
worker_ids zero worker_id = []
worker_ids (suc n) worker_id = let (id, next) = make_worker_id worker_id in id ∷ worker_ids n next
