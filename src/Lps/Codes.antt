-- ===== src/Lps/Codes.antt =====
-- internal/lps/codes.go: the codes that the insurer knows.
use new_trs.Common.{Bool, not, List, ◌++◌, keep}
use new_trs.Common.Text.{Text, codes, split, contains, is_empty}

-- The words of a text whose only blanks are spaces.
unfoldable pub code_set : Text → List Text
code_set values = keep (λ w. not (is_empty w)) (split 32 values)

-- The types of debtors.
unfoldable pub valid_golongan_debitur : List Text
valid_golongan_debitur =
    code_set
      (codes "0010 0020 0030 0040 0050 0060 0070 0080 0999 1010 1020 1030 2010 2020 2090 4111 4112")
    ++ code_set (
        codes
          "4113 4114 4115 4116 4119 4120 4130 4140 4151 4152 4153 4154 4155 4159 4171 4172 4173")
    ++ code_set (
        codes
          "4179 4501 4502 4503 4504 4505 4506 4507 4508 4509 4510 4511 4512 4513 4514 4515 4516")
    ++ code_set (
        codes
          "4599 5110 5120 5130 5140 5151 5152 5153 5154 5159 5199 5501 5502 5599 7110 7120 7130")
    ++ code_set (
        codes
          "7140 7151 7152 7153 7154 7159 7172 7173 7174 7190 7210 7220 7230 7240 7251 7252 7253")
    ++ code_set (
        codes
          "7254 7259 7272 7273 7290 7310 7320 7330 7340 7351 7352 7353 7354 7359 7372 7379 7390")
    ++ code_set (
        codes
          "8111 8112 8113 8114 8115 8116 8117 8118 8139 8141 8149 8151 8152 8159 8411 8412 8413")
    ++ code_set (
        codes
          "8414 8415 8416 8417 8418 8449 8451 8452 8469 8480 8611 8612 8613 8614 8615 8616 8617")
    ++ code_set (
        codes
          "8618 8619 8651 8652 8659 8670 8900 9001 9002 0600 0601 0700 0701 0901 9100 9200 9300")
    ++ code_set (codes "9400 9501 9502 9519 9611 9612 9613 9629 9690 9700")

-- The districts.
unfoldable pub valid_dati_codes : List Text
valid_dati_codes =
    code_set
      (codes "0000 0100 0102 0103 0106 0108 0109 0110 0111 0112 0113 0114 0115 0116 0117 0118 0119")
    ++ code_set (
        codes
          "0121 0122 0123 0180 0191 0192 0193 0194 0195 0196 0197 0198 0200 0201 0202 0203 0204")
    ++ code_set (
        codes
          "0291 0292 0293 0294 0300 0391 0392 0393 0394 0395 0396 0500 0501 0502 0503 0504 0591")
    ++ code_set (
        codes
          "0900 0901 0902 0903 0904 0905 0906 0907 0908 0909 0910 0911 0912 0913 0914 0915 0916")
    ++ code_set (
        codes
          "0917 0918 0919 0920 0921 0922 0923 0924 0925 0926 0927 0928 0929 0991 0992 0993 0994")
    ++ code_set (
        codes
          "0995 0996 1200 1201 1202 1203 1204 1205 1206 1207 1208 1209 1211 1212 1213 1214 1215")
    ++ code_set (
        codes
          "1216 1217 1218 1219 1220 1221 1222 1223 1224 1225 1226 1227 1228 1229 1230 1271 1291")
    ++ code_set (
        codes
          "1292 1293 1294 1295 1296 1297 1298 2300 2301 2302 2303 2304 2305 2306 2307 2308 2309")
    ++ code_set (
        codes
          "2391 3100 3101 3104 3105 3106 3107 3108 3109 3111 3112 3191 3192 3200 3201 3202 3203")
    ++ code_set (
        codes
          "3204 3205 3206 3207 3208 3209 3210 3211 3212 3213 3214 3215 3216 3217 3218 3219 3291")
    ++ code_set (
        codes
          "3292 3293 3294 3300 3301 3302 3303 3304 3305 3306 3307 3308 3309 3310 3311 3313 3314")
    ++ code_set (
        codes
          "3315 3316 3317 3318 3319 3321 3322 3323 3324 3325 3326 3327 3391 3392 3393 3394 3395")
    ++ code_set (
        codes
          "3396 3397 3399 3400 3401 3402 3403 3404 3405 3406 3407 3408 3409 3410 3411 3412 3491")
    ++ code_set (
        codes
          "3492 3493 3494 3495 3496 3497 3500 3501 3502 3504 3505 3508 3509 3510 3511 3512 3513")
    ++ code_set (
        codes
          "3591 3592 3600 3606 3607 3608 3609 3610 3611 3613 3614 3615 3616 3617 3618 3619 3691")
    ++ code_set (
        codes
          "3693 3694 3697 3700 3701 3702 3703 3704 3705 3706 3707 3791 3800 3801 3802 3803 3804")
    ++ code_set (
        codes
          "3805 3891 3892 3900 3901 3902 3903 3904 3905 3906 3907 3908 3909 3910 3911 3912 3913")
    ++ code_set (
        codes
          "3991 3992 5100 5101 5102 5103 5104 5105 5106 5107 5108 5109 5110 5111 5191 5192 5300")
    ++ code_set (
        codes
          "5301 5302 5303 5304 5305 5306 5307 5308 5309 5310 5311 5312 5391 5392 5400 5401 5402")
    ++ code_set (
        codes
          "5403 5404 5405 5406 5409 5410 5411 5412 5413 5491 5492 5493 5494 5500 5800 5801 5802")
    ++ code_set (
        codes
          "5803 5804 5805 5806 5807 5808 5809 5810 5811 5812 5813 5892 6000 6001 6002 6003 6004")
    ++ code_set (
        codes
          "6005 6006 6007 6008 6009 6010 6011 6012 6091 6100 6101 6102 6103 6105 6106 6107 6109")
    ++ code_set (
        codes
          "6110 6111 6112 6113 6114 6115 6116 6117 6118 6119 6121 6122 6124 6125 6191 6192 6193")
    ++ code_set (
        codes
          "6200 6202 6203 6204 6205 6206 6207 6209 6210 6211 6212 6213 6291 6292 6293 6294 6300")
    ++ code_set (
        codes
          "6301 6302 6303 6304 6305 6391 6400 6401 6402 6403 6404 6405 6406 6491 6900 6901 6903")
    ++ code_set (
        codes
          "6904 6905 6906 6907 6908 6909 6910 6911 6912 6913 6914 6915 6916 6990 6991 7100 7101")
    ++ code_set (
        codes
          "7102 7103 7104 7105 7106 7107 7108 7191 7192 7200 7201 7202 7203 7204 7205 7206 7207")
    ++ code_set (
        codes
          "7208 7291 7400 7401 7402 7403 7404 7405 7406 7407 7408 7409 7410 7411 7412 7413 7414")
    ++ code_set (
        codes
          "7415 7416 7417 7418 7419 7420 7421 7491 8100 8101 8102 8103 8104 8105 8106 8107 8108")
    ++ code_set (
        codes
          "8109 8191 8192 8200 8201 8202 8210 8211 8212 8213 8214 8215 8216 8217 8218 8221 8222")
    ++ code_set (
        codes
          "8223 8224 8226 8227 8228 8231 8232 8233 8234 8235 8236 8237 8238 8239 8240 8291 8300")
    ++ code_set (
        codes
          "8302 8303 8304 8305 8306 8307 8308 8309 8390 8391 8400 8401 8402 8403 8404 8405 8406")
    ++ code_set (codes "8407 8408 8409 8410 8411 8412 8491 9999")

unfoldable pub is_valid_golongan_debitur : Text → Bool
is_valid_golongan_debitur value = contains value valid_golongan_debitur

unfoldable pub is_valid_dati_code : Text → Bool
is_valid_dati_code value = contains value valid_dati_codes
