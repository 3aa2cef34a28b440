-- ===== src/Message/Laws.antt =====
-- What building a message by `add_ref` and `add_fd` puts on the wire.
use strong_ipc.Prelude.{ℕ, ◌≡◌, refl, ◌∙◌, List, [], ◌∷◌, ◌++◌, map, append_assoc, append-nil}
use strong_ipc.Message.{
  Message, SendFd, owned, of_ref, from_data, add_ref, add_fd, payload, borrowed, as_fd, fds,
}

abbrev attach : Message → SendFd → Message
attach m (owned fd) = add_fd m fd
attach m (of_ref r) = add_ref m r

abbrev pub attach_all : Message → List SendFd → Message
attach_all m [] = m
attach_all m (f ∷ fs) = attach_all (attach m f) fs

attach-fds : (m : Message) (f : SendFd) → fds (attach m f) ≡ fds m ++ (f ∷ [])
unfolding add_fd add_ref
attach-fds m (owned fd) = refl
attach-fds m (of_ref r) = refl

attach-payload : (m : Message) (f : SendFd) → payload (attach m f) ≡ payload m
unfolding add_fd add_ref
attach-payload m (owned fd) = refl
attach-payload m (of_ref r) = refl

attach_all-fds : (m : Message) (fs : List SendFd) → fds (attach_all m fs) ≡ fds m ++ fs
attach_all-fds m [] = simp append-nil
attach_all-fds m (f ∷ fs) = simp (attach_all-fds (attach m f) fs, attach-fds, append_assoc)

attach_all-payload : (m : Message) (fs : List SendFd) → payload (attach_all m fs) ≡ payload m
attach_all-payload m [] = refl
attach_all-payload m (f ∷ fs) = attach_all-payload (attach m f) fs ∙ attach-payload m f

-- A message built from a payload and any sequence of attachments carries exactly that payload, and
-- borrows exactly the attached descriptors, in order, a `Ref` by the socket that it sends on.
pub attach_all-borrowed :
    (bytes : List ℕ) (fs : List SendFd)
    → (payload (attach_all (from_data bytes) fs) ≡ bytes)
      × (borrowed (attach_all (from_data bytes) fs) ≡ map as_fd fs)
unfolding from_data
attach_all-borrowed bytes fs = (attach_all-payload (from_data bytes) fs, simp attach_all-fds)
