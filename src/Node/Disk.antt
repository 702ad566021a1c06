-- ===== src/Node/Disk.antt =====
-- The file system as crates/sshe-node/src/identity.rs, config.rs and daemon.rs use it, a parameter,
-- and actions on it: functions of the world that may fail.
use sshe.Prelude.{
  subst, ap, refl, arith, ◌≡◌, inr, inl, Result-cases, Result, List, String, ℕ, Bool, ok, err,
  map_err,
}
use sshe.Io.{IoError}
use sshe.Node.Error.{Error, io}
use sshe.Node.Config.{Files}

pub record Disk : Type 1 where
  pub World : Type 0
  -- a temporary file, which only its owner can use
  pub Temp : Type 0
  pub exists : World → String → Bool
  -- the permission bits of `metadata`
  pub mode : World → String → Result IoError ℕ
  pub read_bytes : World → String → Result IoError (List ℕ)
  pub read_to_string : World → String → Result IoError String
  pub as_bytes : String → List ℕ
  pub new_in : String → World → Result IoError Temp × World
  pub write_all : Temp → List ℕ → World → Result IoError Unit × World
  pub sync_all : Temp → World → Result IoError Unit × World
  pub persist : Temp → String → World → Result IoError Unit × World
  pub persist_noclobber : Temp → String → World → Result IoError Unit × World
  pub temp_path : Temp → String
  -- opens a directory and syncs it
  pub sync_dir : String → World → Result IoError Unit × World
  pub create_dir_all : String → World → Result IoError Unit × World
  pub set_permissions : String → ℕ → World → Result IoError Unit × World

-- The disk as the functions of Node/Config take it.
abbrev pub files_of : Disk → Files
files_of disk = record {
  World = disk.World;
  Temp = disk.Temp;
  read_to_string = disk.read_to_string;
  new_in = λ w d. disk.new_in d w;
  write_all = λ w t s. disk.write_all t (disk.as_bytes s) w;
  sync_all = λ w t. disk.sync_all t w;
  persist = λ w t p. disk.persist t p w;
  sync_dir = λ w d. disk.sync_dir d w;
}

abbrev pub Action : Type 0 → Type 0 → Type 0
Action W A = W → Result Error A × W

module _ {W : Type 0} where
  abbrev pub continue : {A B : Type 0} → Result Error A × W → (A → Action W B) → Result Error B × W
  continue (err e, w) f = (err e, w)
  continue (ok a, w) f = f a w

  infixl 5 ◌>>=◌ ◌>>◌
  -- `?` and what follows it
  unfoldable pub ◌>>=◌ : {A B : Type 0} → Action W A → (A → Action W B) → Action W B
  (m >>= f) w = continue (m w) f

  abbrev pub ◌>>◌ : {B : Type 0} → Action W Unit → Action W B → Action W B
  m >> k = m >>= λ _. k

  -- an operation of the disk
  unfoldable pub try : {A : Type 0} → (W → Result IoError A × W) → Action W A
  try op w = let (r, w') = op w in (map_err io r, w')

  -- what is looked up or computed
  unfoldable pub look : {A : Type 0} → (W → Result Error A) → Action W A
  look f w = (f w, w)

  -- What every action of a chain keeps, the chain keeps; `Q` is known of the first result.
  pub >>=-keeps_with :
      {A B : Type 0} (P : W → Type 0) (Q : A → Type 0) (m : Action W A) (f : A → Action W B) (w : W)
      → P w
      → (P w → P (m w).1)
      → ((a : A) → P w → (m w).0 ≡ ok a → Q a)
      → ((a : A) (w' : W) → Q a → P w' → P (f a w').1)
      → P ((m >>= f) w).1
  unfolding ◌>>=◌
  >>=-keeps_with P Q m f w p hm hq hf = elim (Result-cases (m w).0) [
    | inl (a, e) ↦ rw e (hf a (m w).1 (hq a p e) (hm p))
    | inr (e, failed) ↦ rw failed (hm p)
  ]

  pub >>=-keeps :
      {A B : Type 0} (P : W → Type 0) (m : Action W A) (f : A → Action W B)
      → ((w : W) → P w → P (m w).1)
      → ((a : A) (w : W) → P w → P (f a w).1)
      → (w : W) → P w
      → P ((m >>= f) w).1
  >>=-keeps P m f hm hf w p =
      >>=-keeps_with P (λ a. Unit) m f w p (hm w) (λ a p e. tt) (λ a w' q p'. hf a w' p')

  continue-ok :
      {A B : Type 0} (r : Result Error A × W) (f : A → Action W B) {b : B} {w' : W}
      → continue r f ≡ (ok b, w')
      → (a : A) × (r ≡ (ok a, r.1)) × (f a r.1 ≡ (ok b, w'))
  continue-ok (ok a, w) f done = (a, refl, done)
  continue-ok (err e, w) f done = absurd (ground arith)

  -- The steps that led to a success.
  pub >>=-ok :
      {A B : Type 0} (m : Action W A) (f : A → Action W B) (w : W) {b : B} {w' : W}
      → (m >>= f) w ≡ (ok b, w')
      → (a : A) × (m w ≡ (ok a, (m w).1)) × (f a (m w).1 ≡ (ok b, w'))
  unfolding ◌>>=◌
  >>=-ok m f w done = continue-ok (m w) f done

  tried-ok :
      {A : Type 0} (r : Result IoError A × W) {a : A} {w' : W}
      → ◌≡◌ {A = Result Error A × W} (map_err io r.0, r.1) (ok a, w')
      → r ≡ (ok a, w')
  tried-ok (ok a, w) done = ground arith
  tried-ok (err e, w) done = absurd (ground arith)

  pub try-ok :
      {A : Type 0} (op : W → Result IoError A × W) (w : W) {a : A} {w' : W}
      → try op w ≡ (ok a, w')
      → op w ≡ (ok a, w')
  unfolding try
  try-ok op w done = tried-ok (op w) done

  pub try_then-ok :
      {A B : Type 0} (op : W → Result IoError A × W) (f : A → Action W B) (w : W) {b : B} {w' : W}
      → (try op >>= f) w ≡ (ok b, w')
      → (a : A) × (op w ≡ (ok a, (op w).1)) × (f a (op w).1 ≡ (ok b, w'))
  unfolding try
  try_then-ok op f w done = let (a, e, rest) = >>=-ok (try op) f w done in (a, try-ok op w e, rest)

  pub look_then-ok :
      {A B : Type 0} (g : W → Result Error A) (f : A → Action W B) (w : W) {b : B} {w' : W}
      → (look g >>= f) w ≡ (ok b, w')
      → (a : A) × (g w ≡ ok a) × (f a w ≡ (ok b, w'))
  unfolding look
  look_then-ok g f w done =
      let (a, e, rest) = >>=-ok (look g) f w done in (a, ap (λ p. p.0) e, rest)

  abbrev Done : {A : Type 0} → (A → W → Type 0) → Result Error A × W → Type 0
  Done P (ok a, w) = P a w
  Done P (err e, w) = Unit

  -- What holds of a result and its world holds of an equal one.
  pub moved :
      {A : Type 0} (P : A → W → Type 0) {a b : A} {w w' : W}
      → ◌≡◌ {A = Result Error A × W} (ok a, w) (ok b, w')
      → P a w
      → P b w'
  moved P h p = subst (Done P) h p

  -- What is true of the world after a success, and after an error.
  abbrev pub Outcome : {A : Type 0} → (W → Type 0) → (W → Type 0) → Result Error A × W → Type 0
  Outcome Q R (ok a, w) = Q w
  Outcome Q R (err e, w) = R w

  continue-Outcome :
      {A B : Type 0} (Q Q' R : W → Type 0) (r : Result Error A × W) (f : A → Action W B)
      → Outcome Q R r
      → ((a : A) (w : W) → Q w → Outcome Q' R (f a w))
      → Outcome Q' R (continue r f)
  continue-Outcome Q Q' R (ok a, w) f q h = h a w q
  continue-Outcome Q Q' R (err e, w) f p h = p

  pub >>=-Outcome :
      {A B : Type 0} (Q Q' R : W → Type 0) (m : Action W A) (f : A → Action W B) (w : W)
      → Outcome Q R (m w)
      → ((a : A) (w : W) → Q w → Outcome Q' R (f a w))
      → Outcome Q' R ((m >>= f) w)
  unfolding ◌>>=◌
  >>=-Outcome Q Q' R m f w q h = continue-Outcome Q Q' R (m w) f q h

  checked-Outcome :
      {A : Type 0} (P : W → Type 0) (r : Result Error A) (w : W) → P w → Outcome P P (r, w)
  checked-Outcome P (ok a) w p = p
  checked-Outcome P (err e) w p = p

  pub look-Outcome :
      {A : Type 0} (P : W → Type 0) (f : W → Result Error A) (w : W) → P w → Outcome P P (look f w)
  unfolding look
  look-Outcome P f w p = checked-Outcome P (f w) w p

  continue-cases :
      {A B : Type 0} (G : Result Error B × W → Type 0) (r : Result Error A × W) (f : A → Action W B)
      → ((e : Error) → r ≡ (err e, r.1) → G (err e, r.1))
      → ((a : A) → r ≡ (ok a, r.1) → G (f a r.1))
      → G (continue r f)
  continue-cases G (ok a, w) f failed went = went a refl
  continue-cases G (err e, w) f failed went = failed e refl

  -- What follows of a chain from what follows of its first action.
  pub >>=-cases :
      {A B : Type 0} (G : Result Error B × W → Type 0) (m : Action W A) (f : A → Action W B) (w : W)
      → ((e : Error) → m w ≡ (err e, (m w).1) → G (err e, (m w).1))
      → ((a : A) → m w ≡ (ok a, (m w).1) → G (f a (m w).1))
      → G ((m >>= f) w)
  unfolding ◌>>=◌
  >>=-cases G m f w failed went = continue-cases G (m w) f failed went

  pub look_then-cases :
      {A B : Type 0} (G : Result Error B × W → Type 0) (g : W → Result Error A) (f : A → Action W B)
      (w : W)
      → ((e : Error) → G (err e, w))
      → ((a : A) → g w ≡ ok a → G (f a w))
      → G ((look g >>= f) w)
  unfolding look
  look_then-cases G g f w failed went =
      >>=-cases G (look g) f w (λ e h. failed e) (λ a h. went a (ap (λ p. p.0) h))
