-- ===== src/Http/Creating.antt =====
-- The statuses of CAT-1, through handler, service, repository and table.
use iam_catalog_admin.Base.{
  List, ℕ, String, Bool, true, false, ◌||◌, Option, none, some, ◌≡◌, refl, ◌∙◌, ap, inl, inr, arith,
  Bool-cases, any, eqb, ◌==◌, if◌then◌else◌,
}
use iam_catalog_admin.Base.Text.{is_blank, nonempty_of_blank}
use iam_catalog_admin.Domain.{Department}
use iam_catalog_admin.Domain.Errors.{Error, new_error, with_details}
use iam_catalog_admin.Exec.{Result, ok, err, on, pure, fail, ◌>>=◌}
use iam_catalog_admin.World.{World, inc, writes_total}
use iam_catalog_admin.Postgres.Pgx.{input_error, Pgx, IsPgx, statement}
use iam_catalog_admin.Postgres.Db.{wrap_result, wrap_conn_err}
use iam_catalog_admin.Postgres.Undisturbed.{IsUndisturbed, with_pool-result}
use iam_catalog_admin.Postgres.Schema.{insert_department, violation, new_row}
use iam_catalog_admin.Postgres.Department as Repository
use iam_catalog_admin.Postgres.Department.{
  indexed, insert_from_tx, insert_row, with_id, duplicate_of, department_repository,
}
use iam_catalog_admin.Postgres.Schema.Inserting.{insert_department-new}
use iam_catalog_admin.Service.Codec.{Codec}
use iam_catalog_admin.Service.Department as Service
use iam_catalog_admin.Service.Department.{DepartmentService, invalidate_cache, new_department}
use iam_catalog_admin.Http.Context.{Ctx, RequestContext, is_operator}
use iam_catalog_admin.Http.Middleware.{require_operator}
use iam_catalog_admin.Http.Respond.{answer, handle_error, domain_error_status}
use iam_catalog_admin.Http.Bind.{Gin, bind_create, DepartmentCreateRequest}
use iam_catalog_admin.Http.Departments
use iam_catalog_admin.Http.Statuses.{gate_status, map_error, status_after, invalidated}

module _ (p : Pgx) where
  -- 400 without a code or a name, 409 if a row has the code or the new id, else 201.
  abbrev pub bound_status : World → Option DepartmentCreateRequest → ℕ
  bound_status w none = 400
  bound_status w (some req) =
      if is_blank req.code || is_blank req.name
      then 400
      else if any (λ r. eqb r.id (p.new_uuid w)) w.departments
      then 409
      else if any (λ r. r.code == req.code) w.departments
      then 409
      else 201

-- The server can hold the texts, and the index the code.
pub record IsStorable (p : Pgx) (code name : String) : Type 0 where
  pub has_code : p.text_error code ≡ none
  pub has_name : p.text_error name ≡ none
  pub has_index : p.index_error code ≡ none

module _ {p : Pgx} (laws : IsPgx p) (u : IsUndisturbed p) where
  inserted :
      (f : Error → Error) (x : Result Department × World)
      → (on (λ d. inc (writes_total "departments" "insert") >>= λ _. pure d) (λ e. fail (f e)) x).0
        ≡ map_error f x.0
  unfolding inc
  inserted f (ok d, w) = refl
  inserted f (err e, w) = refl

  insert_from_tx-result :
      (d : Department) (w : World)
      → IsStorable p d.code d.name
      → (insert_from_tx p d w).0
        ≡ map_error (duplicate_of p) (insert_department w.now d w.departments).0
  unfolding insert_from_tx
  insert_from_tx-result d w fits =
      rw (u.sent w 0, statement)
        (inserted (duplicate_of p) (insert_row p d w) ∙ ap (map_error (duplicate_of p)) row)
    where
      stored : (x : Result Department × List Department) → (indexed p none w x).0 ≡ x.0
      stored (ok row, rows) = refl
      stored (err e, rows) = refl

      row : (insert_row p d w).0 ≡ (insert_department w.now d w.departments).0
      row =
          rw (fits.has_code, fits.has_name, fits.has_index, insert_row, input_error)
            (stored (insert_department w.now d w.departments))

  duplicated :
      (c : Ctx) (name : String)
      → status_after {A = Department} p 201 c
          (wrap_result p (err (duplicate_of p (violation "23505" name))))
        ≡ 409
  unfolding handle_error domain_error_status wrap_conn_err new_error with_details
  duplicated c name =
      rw
        (laws.unique_violation
          (record { sqlstate = "23505"; constraint = name; message = "violation" }))
        refl

  by_index :
      (c : Ctx) (same_id same_code : Bool) (row : Department)
      → status_after p 201 c (
          map_error
            (λ e. e)
            (wrap_result p (
              map_error (duplicate_of p) (
                if same_id
                then err (violation "23505" "departments_pkey")
                else if same_code
                then err (violation "23505" "uq_departments_code")
                else ok row))))
        ≡ (if same_id then 409 else if same_code then 409 else 201)
  by_index c true same_code row = duplicated c "departments_pkey"
  by_index c false true row = duplicated c "uq_departments_code"
  by_index c false false row = refl

  module _ (k : Codec) (g : Gin) (s : DepartmentService)
      (repo : s.repo ≡ department_repository p) where
    answer-status :
        (c : Ctx) (x : Result Department × World)
        → (answer p c (Departments.written p k g "insert" 201) x).0.status
          ≡ status_after p 201 c x.0
    unfolding answer
    answer-status c (ok d, w) = refl
    answer-status c (err e, w) = refl

    insert-result :
        (code name : String) (is_system : Bool) (w : World)
        → is_blank code ≡ false
        → is_blank name ≡ false
        → IsStorable p code name
        → (Repository.insert p (new_department code name is_system) w).0
          ≡ wrap_result p (
              map_error (duplicate_of p) (
                if any (λ r. eqb r.id (p.new_uuid w)) w.departments
                then err (violation "23505" "departments_pkey")
                else if any (λ r. r.code == code) w.departments
                then err (violation "23505" "uq_departments_code")
                else ok (new_row w.now (with_id p w (new_department code name is_system)))))
    unfolding Repository.insert
    insert-result code name is_system w has_code has_name fits =
        let d = with_id p w (new_department code name is_system) in
        rw
          (
            with_pool-result u (insert_from_tx p d) w,
            insert_from_tx-result d w fits,
            insert_department-new w.now d w.departments refl (nonempty_of_blank code has_code)
                (nonempty_of_blank name has_name),
          )
          refl

    bound-status :
        (c : Ctx) (w : World) (req : DepartmentCreateRequest)
        → IsStorable p req.code req.name
        → (Departments.create_bound p k g s c w (some req)).0.status ≡ bound_status p w (some req)
    unfolding Service.create answer handle_error domain_error_status new_error
    bound-status c w req fits = elim (Bool-cases (is_blank req.code || is_blank req.name)) [
      | inl blank ↦ rw (blank, Service.create, answer) refl
      | inr given ↦
          let d = new_department req.code req.name req.is_system in
          let inserted =
            insert-result req.code req.name req.is_system w (ground (arith, given))
              (ground (arith, given)) fits in
          rw (given, Service.create)
            (answer-status c (on (invalidate_cache s) fail (s.repo.insert d w))
              ∙ ap (status_after p 201 c) (invalidated s (λ e. e) (s.repo.insert d w))
              ∙ rw (repo, inserted)
                  (by_index c (any (λ r. eqb r.id (p.new_uuid w)) w.departments)
                    (any (λ r. r.code == req.code) w.departments) _))
    ]

    body-status :
        (c : Ctx) (w : World) (b : Option DepartmentCreateRequest)
        → ((req : DepartmentCreateRequest) → b ≡ some req → IsStorable p req.code req.name)
        → (Departments.create_bound p k g s c w b).0.status ≡ bound_status p w b
    unfolding handle_error domain_error_status new_error
    body-status c w none fits = refl
    body-status c w (some req) fits = bound-status c w req (fits req refl)

    -- Take the service over the repository, with any cache or none, and a body whose texts, if it
    -- binds, the server can hold and the index of the codes takes. If no connection and no
    -- transaction fails, then the handler of CAT-1 answers 401 without an identity, 403 to a caller
    -- who is no operator, 400 if the body does not bind or the code or the name is blank, 409 if a
    -- row has the code or the new id, and 201 otherwise.
    pub create-status :
        (c : Ctx) (w : World)
        → ((req : DepartmentCreateRequest)
            → bind_create g c.request.body ≡ some req
            → IsStorable p req.code req.name)
        → (Departments.create p k g s c w).0.status
          ≡ gate_status c.identity (bound_status p w (bind_create g c.request.body))
    unfolding Departments.create require_operator handle_error domain_error_status new_error
    create-status c w fits = go c.identity refl (bind_create g c.request.body) refl
      where
        go :
            (o : Option RequestContext)
            → c.identity ≡ o
            → (b : Option DepartmentCreateRequest) → bind_create g c.request.body ≡ b
            → (Departments.create p k g s c w).0.status ≡ gate_status o (bound_status p w b)
        go none e b f = rw (Departments.create, require_operator, e) refl
        go (some rc) e b f = elim (Bool-cases (is_operator rc)) [
          | inr other ↦ rw (Departments.create, require_operator, e, other) refl
          | inl operator ↦
              rw (Departments.create, require_operator, e, operator, f)
                (body-status c w b (λ req h. fits req (f ∙ h)))
        ]
