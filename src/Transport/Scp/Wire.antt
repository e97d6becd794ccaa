-- ===== src/Transport/Scp/Wire.antt =====
-- What a successful `uploadSCP` has written: the records of the tree.
use mathlib.Core.List.{append_assoc}
use mathlib.Core.Path.{subst}
use channel_term.Prelude.{
  ℕ, suc, ◌+◌, ◌%◌, ◌≤◌, ◌≡◌, refl, sym, ap, ◌∙◌, arith, Bool, true, false, none, some, ◌∷◌, ◌++◌,
  leb, leb→le, if◌then◌else◌, Option, length, length-take, take, Bytes,
}
use channel_term.Transport.Scp.Names.{valid_file_name}
use channel_term.Transport.Scp.Records.{
  ScpError, write_failed, payload_failed, Acked, acked, refused, scp_ack,
}
use channel_term.Transport.Scp.Upload.{
  Node, Nodes, file, dir, special, link, unreadable, nil, cons, Caller, Sent, Sending, and_then,
  await, get_ack, check, write, header_text, copy_payload, copy_until, put_payload, count_sent,
}

-- The records of a tree, and what follows them.
unfoldable mutual
  pub wire : Node → Bytes → Bytes
  wire (file permissions name size content) rest =
      b'C' ∷ (header_text (permissions % 512) size name ++ 10 ∷ (take size content ++ 0 ∷ rest))
  wire (dir permissions name children) rest =
      b'D' ∷ (header_text (permissions % 512) 0 name ++ 10 ∷ wire_all children (b'E' ∷ 10 ∷ rest))
  wire (special name) rest = rest
  wire (link name) rest = rest
  wire (unreadable name) rest = rest

  pub wire_all : Nodes → Bytes → Bytes
  wire_all nil rest = rest
  wire_all (cons node nodes) rest = wire node (wire_all nodes rest)

-- The number of the files of a tree, and of the bytes in them.
unfoldable mutual
  pub files_of : Node → ℕ
  files_of (file _ _ _ _) = 1
  files_of (dir _ _ children) = files_of_all children
  files_of (special _) = 0
  files_of (link _) = 0
  files_of (unreadable _) = 0

  pub files_of_all : Nodes → ℕ
  files_of_all nil = 0
  files_of_all (cons node nodes) = files_of node + files_of_all nodes

unfoldable mutual
  pub bytes_of : Node → ℕ
  bytes_of (file _ _ size _) = size
  bytes_of (dir _ _ children) = bytes_of_all children
  bytes_of (special _) = 0
  bytes_of (link _) = 0
  bytes_of (unreadable _) = 0

  pub bytes_of_all : Nodes → ℕ
  bytes_of_all nil = 0
  bytes_of_all (cons node nodes) = bytes_of node + bytes_of_all nodes

-- A tree that can be sent: valid names, content that is as long as its size tells, and directories
-- only if they were asked for.
unfoldable mutual
  pub Sendable : Bool → Node → Type 0
  Sendable recursive (file _ name size content) =
      (valid_file_name name ≡ true) × (size ≤ length content)
  Sendable recursive (dir _ name children) =
      (valid_file_name name ≡ true) × (recursive ≡ true) × AllSendable recursive children
  Sendable recursive (special _) = ⊥
  Sendable recursive (link _) = ⊥
  Sendable recursive (unreadable _) = ⊥

  pub AllSendable : Bool → Nodes → Type 0
  AllSendable recursive nil = Unit
  AllSendable recursive (cons node nodes) = Sendable recursive node × AllSendable recursive nodes

-- From one state to another, a text has been written, files have been counted and bytes too.
abbrev pub Grows : Sent → (Bytes → Bytes) → ℕ → ℕ → Sent → Type 0
Grows s written files bytes s' =
    ((rest : Bytes) → s'.out ++ rest ≡ s.out ++ written rest)
    × (s'.files ≡ s.files + files)
    × (s'.total_bytes ≡ s.total_bytes + bytes)

-- What a part does if there is no error, and what is known then.
abbrev pub Does : Sent → (Bytes → Bytes) → ℕ → ℕ → Type 0 → Sending → Type 0
Does s written files bytes P (s', none) = Grows s written files bytes s' × P
Does s written files bytes P (s', some x) = Unit

abbrev pub same : Bytes → Bytes
same rest = rest

-- One part after another; the second one knows what the first has found out.
pub Does-then :
    (s : Sent) (f g : Bytes → Bytes) (a b i j : ℕ) (P Q : Type 0) (m : Sending)
    (next : Sent → Sending)
    → Does s f a b P m
    → ((s' : Sent) → P → Does s' g i j Q (next s'))
    → Does s (λ rest. f (g rest)) (a + i) (b + j) Q (and_then m next)
Does-then s f g a b i j P Q (s', some x) next done more = tt
Does-then s f g a b i j P Q (s', none) next ((out, files, bytes), p) more =
    given (next s') (more s' p)
  where
    given : (m : Sending) → Does s' g i j Q m → Does s (λ rest. f (g rest)) (a + i) (b + j) Q m
    given (s'', some x) done = tt
    given (s'', none) ((out', files', bytes'), q) =
        ((λ rest. out' rest ∙ out (g rest), omega arith, omega arith), q)

pub Does-adjust :
    (s : Sent) (f g : Bytes → Bytes) (a b i j : ℕ) (P Q : Type 0) (m : Sending)
    → Does s f a b P m
    → ((rest : Bytes) → f rest ≡ g rest)
    → a ≡ i
    → b ≡ j
    → (P → Q)
    → Does s g i j Q m
Does-adjust s f g a b i j P Q (s', some x) done fg ai bj pq = tt
Does-adjust s f g a b i j P Q (s', none) ((out, files, bytes), p) fg ai bj pq =
    ((λ rest. out rest ∙ ap (◌++◌ s.out) (fg rest), omega arith, omega arith), pq p)

-- The first part writes nothing.
pub Does-after :
    (s : Sent) (g : Bytes → Bytes) (i j : ℕ) (P Q : Type 0) (m : Sending) (next : Sent → Sending)
    → Does s same 0 0 P m
    → ((s' : Sent) → P → Does s' g i j Q (next s'))
    → Does s g i j Q (and_then m next)
Does-after s g i j P Q m next done more =
    Does-adjust s g g (0 + i) (0 + j) i j Q Q (and_then m next)
      (Does-then s same g 0 0 i j P Q m next done more) (λ rest. refl) (omega arith) (omega arith)
      (λ q. q)

pub check-Does :
    (good : Bool) (x : ScpError) (s : Sent) → Does s same 0 0 (good ≡ true) (check good x s)
check-Does true x s = ((λ rest. refl, omega arith, omega arith), refl)
check-Does false x s = tt

pub get_ack-Does : (s : Sent) → Does s same 0 0 Unit (get_ack s)
get_ack-Does s = given (scp_ack s.replies)
  where
    given : (a : Acked) → Does s same 0 0 Unit (await s a)
    given (acked replies) = ((λ rest. refl, omega arith, omega arith), tt)
    given (refused x) = tt

pub write-Does :
    (c : Caller) (p : Bytes) (s : Sent) → Does s (λ rest. p ++ rest) 0 0 Unit (write c p s)
write-Does c p s = given (c.writes s.writings)
  where
    given :
        (b : Bool)
        → Does s
            (λ rest. p ++ rest)
            0
            0
            Unit
            (if b
              then (record s { out = s.out ++ p; writings = suc s.writings }, none)
              else (record s { writings = suc s.writings }, some write_failed))
    given true = ((λ rest. append_assoc s.out p rest, omega arith, omega arith), tt)
    given false = tt

pub copy_payload-Does :
    (c : Caller) (size : ℕ) (content : Bytes) (s : Sent)
    → Does s
        (λ rest. take size content ++ rest)
        0
        size
        (size ≤ length content)
        (copy_payload c size content s)
copy_payload-Does c size content s = given (c.breaks s.entries) (leb size (length content)) refl
  where
    given :
        (broken : Option ℕ) (enough : Bool)
        → leb size (length content) ≡ enough
        → Does s
            (λ rest. take size content ++ rest)
            0
            size
            (size ≤ length content)
            (copy_until broken size content s)
    given (some k) enough e = tt
    given none true e =
        subst
          (λ b.
            Does s (λ rest. take size content ++ rest) 0 size (size ≤ length content)
              (put_payload (take size content) s, if b then none else some payload_failed))
          (sym e)
          (
            (
              λ rest. append_assoc s.out (take size content) rest,
              omega arith,
              omega (arith, length-take size content, leb→le size (length content) e),
            ),
            leb→le size (length content) e,
          )
    given none false e =
        subst
          (λ b.
            Does s (λ rest. take size content ++ rest) 0 size (size ≤ length content)
              (put_payload (take size content) s, if b then none else some payload_failed))
          (sym e) tt

pub count_sent-Does : (s : Sent) → Does s same 1 0 Unit (count_sent s)
count_sent-Does s = ((λ rest. refl, omega arith, omega arith), tt)

-- The first part is a write.
pub Does-write :
    (c : Caller) (p : Bytes) (s : Sent) (g : Bytes → Bytes) (i j : ℕ) (Q : Type 0)
    (next : Sent → Sending)
    → ((s' : Sent) → Does s' g i j Q (next s'))
    → Does s (λ rest. p ++ g rest) i j Q (and_then (write c p s) next)
Does-write c p s g i j Q next more =
    Does-adjust s (λ rest. p ++ g rest) (λ rest. p ++ g rest) (0 + i) (0 + j) i j Q Q
      (and_then (write c p s) next)
      (Does-then s (λ rest. p ++ rest) g 0 0 i j Unit Q (write c p s) next (write-Does c p s)
        (λ s' _. more s'))
      (λ rest. refl) (omega arith) (omega arith) (λ q. q)
