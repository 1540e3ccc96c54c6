-- ===== src/Proxy/Steps.antt =====
-- Dialogue of an exchange with a proxy, one read or write after the other.
use bursthttp.Base.{length, Bytes, ℕ, refl, sym, ap, [], append_assoc, append-nil, ◌≡◌, ◌∙◌, ◌++◌}
use bursthttp.Errors.{ErrorType}
use Prim.Native.String.{String}
use bursthttp.Input.{Input, done, Outcome, ◌>>=◌}
use bursthttp.Input.Flat.{flat, ending}
use bursthttp.Proxy.{Conn, receive, write, wrapped}
use bursthttp.Proxy.Reads.{conn, write-conn, receive-append}

-- A step that takes the bytes in front and sends some, with the rest left to read.
pub record Dialogue (f : Conn → Outcome Conn) (s out rest : Bytes) (i : Input) : Type 0 where
  pub left : Input
  pub result : f (conn s i) ≡ done (conn (s ++ out) left)
  pub left_is : flat left ≡ rest
  pub same_end : ending left ≡ ending i

-- A step that does the same as another on the connection at hand.
pub as_Steps :
    {f g : Conn → Outcome Conn} {s out rest : Bytes} {i : Input}
    → f (conn s i) ≡ g (conn s i)
    → Dialogue g s out rest i
    → Dialogue f s out rest i
as_Steps e st = record {
  left = st.left;
  result = e ∙ st.result;
  left_is = st.left_is;
  same_end = st.same_end;
}

pub done-Dialogue : {s rest : Bytes} {i : Input} → flat i ≡ rest → Dialogue done s [] rest i
done-Dialogue {s} {i = i} h = record {
  left = i;
  result = ap (λ t. done (conn t i)) (sym (append-nil s));
  left_is = h;
  same_end = refl;
}

pub write-Dialogue :
    {k : Conn → Outcome Conn} {s out rest : Bytes} {i : Input} (bs : Bytes)
    → Dialogue k (s ++ bs) out rest i
    → Dialogue (λ c. write bs c >>= k) s (bs ++ out) rest i
write-Dialogue {k} {s} {out} {i = i} bs st = record {
  left = st.left;
  result =
      ap (λ o. o >>= k) (write-conn bs s i)
      ∙ st.result
      ∙ ap (λ t. done (conn t st.left)) (append_assoc s bs out);
  left_is = st.left_is;
  same_end = st.same_end;
}

pub receive-Dialogue :
    {n : ℕ} {s out rest : Bytes} {i : Input} (k : Bytes × Conn → Outcome Conn) (bs more : Bytes)
    → length bs ≡ n
    → flat i ≡ bs ++ more
    → ((j : Input) → flat j ≡ more → Dialogue (λ c. k (bs, c)) s out rest j)
    → Dialogue (λ c. receive n c >>= k) s out rest i
receive-Dialogue {n} {s} {i = i} k bs more l h next =
    let (j, e, f, g) = receive-append n s i bs more l h in
    let st = next j f in
    record {
      left = st.left;
      result = ap (λ o. o >>= k) e ∙ st.result;
      left_is = st.left_is;
      same_end = st.same_end ∙ g;
    }

pub wrapped-Dialogue :
    {f : Conn → Outcome Conn} {s out rest : Bytes} {i : Input} (t : ErrorType) (m : String)
    → Dialogue f s out rest i
    → Dialogue (λ c. wrapped t m (f c)) s out rest i
unfolding wrapped
wrapped-Dialogue t m st = record {
  left = st.left;
  result = ap (wrapped t m) st.result;
  left_is = st.left_is;
  same_end = st.same_end;
}

-- One step after another.
pub bind-Dialogue :
    {f g : Conn → Outcome Conn} {s out more : Bytes} {i : Input} (out' rest : Bytes)
    → Dialogue f s out more i
    → ((j : Input) → flat j ≡ more → Dialogue g (s ++ out) out' rest j)
    → Dialogue (λ c. f c >>= g) s (out ++ out') rest i
bind-Dialogue {f} {g} {s} {out} out' rest st next =
    let st' = next st.left st.left_is in
    record {
      left = st'.left;
      result =
          ap (λ o. o >>= g) st.result
          ∙ st'.result
          ∙ ap (λ t. done (conn t st'.left)) (append_assoc s out out');
      left_is = st'.left_is;
      same_end = st'.same_end ∙ st.same_end;
    }
